-- ===== src/ShmQueue/Receive.antt =====
-- What `Dequeue` takes from a queue that holds messages.
use native.Mathlib.Nat.{mod-lt, mod-add-mod}
use simple_kv_svr.Base.{
  ℕ, suc, ◌+◌, ◌-◌, ◌%◌, ◌≤◌, ◌<◌, false, List, [], ◌∷◌, ◌++◌, length, take, drop, Bytes, int_mod,
  int_sign, ◌≡◌, refl, ap, sym, ◌∙◌, arith, slots, slots-head_of_pos, mod_small, slots-append,
  length-slots, take-append_length, drop-append_length, length-append, if◌then◌else◌, inl, inr, ◌⊎◌,
}
use simple_kv_svr.ShmQueue.{
  ShareQueueNode, ShareQueue, Outcome, unsigned_sub, blank, node_at, empty_queue, read_nodes,
  front_len, dequeue_pass, dequeue,
}
use simple_kv_svr.ShmQueue.Nodes.{nodes_of, payload, IsRing, end_len, announced, read_nodes-payload}
use simple_kv_svr.ShmQueue.Messages.{IsGroup, HoldsAll, Holds, empty_queue_lem}

announced-append :
    (g rest : List ShareQueueNode) → 0 < length g → announced (g ++ rest) ≡ announced g
announced-append [] rest h = elim h [ ]
announced-append (n ∷ g) rest h = refl

end_len-snoc : (ns : List ShareQueueNode) (n : ShareQueueNode) → end_len (ns ++ (n ∷ [])) ≡ n.len
end_len-snoc [] n = refl
end_len-snoc (n₁ ∷ []) n = refl
end_len-snoc (n₁ ∷ n₂ ∷ ns) n = end_len-snoc (n₂ ∷ ns) n

-- The first group of a ring and what lies behind it.
record Front (q : ShareQueue) (count : ℕ) (g rest : List ShareQueueNode) : Type 0 where
  first : nodes_of q (length g) ≡ g
  others :
      slots blank q.nodes q.max_size ((q.front + length g) % q.max_size) (count - length g) ≡ rest
  fits : length g ≤ count
  head_counts : (node_at q q.front).nodes ≡ announced g
  last_measures : (node_at q ((q.front + (length g - 1)) % q.max_size)).len ≡ end_len g

nodes_of-Front :
    (q : ShareQueue) (count : ℕ) (g rest : List ShareQueueNode)
    → IsRing q count
    → nodes_of q count ≡ g ++ rest
    → 0 < length g
    → Front q count g rest
nodes_of-Front q count g rest v e pos = record {
  first = first;
  others =
      sym (
        drop-append_length (length g) (nodes_of q (length g)) _
          (sym (length-slots blank q.nodes q.max_size q.front (length g))))
      ∙ ap (drop (length g)) both
      ∙ drop-append_length (length g) g rest refl;
  fits = fits;
  head_counts =
      ap announced
        (sym (slots-head_of_pos blank q.nodes q.max_size q.front (length g) v.front_in pos))
      ∙ ap announced first;
  last_measures =
      sym (
        end_len-snoc (nodes_of q (length g - 1))
          (node_at q ((q.front + (length g - 1)) % q.max_size)))
      ∙ ap (λ n. end_len (nodes_of q n)) suc_pred
      ∙ ap end_len first;
}
  where
    suc_pred : suc (length g - 1) ≡ length g
    suc_pred = omega arith

    fits : length g ≤ count
    fits = omega (
      arith,
      ap length e,
      length-append g rest,
      length-slots blank q.nodes q.max_size q.front count,
    )

    split : length g + (count - length g) ≡ count
    split = omega (arith, fits)

    both :
        nodes_of q (length g)
          ++ slots blank q.nodes q.max_size ((q.front + length g) % q.max_size) (count - length g)
        ≡ g ++ rest
    both =
        sym (slots-append blank q.nodes q.max_size q.front (length g) (count - length g))
        ∙ ap (nodes_of q) split
        ∙ e

    first : nodes_of q (length g) ≡ g
    first =
        sym (
          take-append_length (length g) (nodes_of q (length g)) _
            (sym (length-slots blank q.nodes q.max_size q.front (length g))))
        ∙ ap (take (length g)) both
        ∙ take-append_length (length g) g rest refl

-- The front of a queue whose first message lies in the nodes `g`.
front_len_lem :
    (q : ShareQueue) (count : ℕ) (g rest : List ShareQueueNode) (message : Bytes)
    → IsRing q count
    → q.max_size < int_sign
    → IsGroup g message
    → Front q count g rest
    → front_len q ≡ length message
unfolding front_len
front_len_lem q count g rest message v small p f =
    rw
      (
        f.head_counts,
        p.counted,
        pred (length g) p.nonempty (omega arith),
        pred (q.front + length g) (omega arith) (omega arith),
        place,
        f.last_measures,
        p.measured,
      )
      (mod_small (length message) int_mod p.short)
  where
    pred : (n : ℕ) → 0 < n → n < int_mod → unsigned_sub n 1 ≡ n - 1
    pred n pos h = omega arith

    place : q.front + length g - 1 ≡ q.front + (length g - 1)
    place = omega arith

dequeue_done :
    (q : ShareQueue) (count : ℕ) (g rest : List ShareQueueNode) (message : Bytes)
    → IsRing q count
    → q.max_size < int_sign
    → q.shut_down ≡ false
    → IsGroup g message
    → Front q count g rest
    → dequeue q
      ≡ Outcome.done
          (length message, message, record q { front = (q.front + length g) % q.max_size })
unfolding dequeue dequeue_pass
dequeue_done q count g rest message v small isopen p f =
    ap (λ b. if b then Outcome.refused else dequeue_pass q) isopen
    ∙ ap
        (λ b.
          if b
          then if q.shut_down then Outcome.stopped else Outcome.wait
          else Outcome.done (
            front_len q,
            (read_nodes (node_at q q.front).nodes q).0,
            (read_nodes (node_at q q.front).nodes q).1,
          ))
        nonempty
    ∙ (ap (λ p. Outcome.done (front_len q, p.0, p.1)) read
        ∙ ap
            (λ n. Outcome.done (n, message, record q { front = (q.front + length g) % q.max_size }))
            (front_len_lem q count g rest message v small p f))
  where
    nonempty : empty_queue q ≡ false
    nonempty = empty_queue_lem q count v ∙ ground (arith, f.fits, p.nonempty)

    suc_pred : suc (length g - 1) ≡ length g
    suc_pred = omega (arith, p.nonempty)

    nodes : (node_at q q.front).nodes ≡ suc (length g - 1)
    nodes = f.head_counts ∙ p.counted ∙ sym suc_pred

    read :
        read_nodes (node_at q q.front).nodes q
        ≡ (message, record q { front = (q.front + length g) % q.max_size })
    read =
        ap (λ n. read_nodes n q) nodes
        ∙ read_nodes-payload (length g - 1) q v.front_in
        ∙ ap (λ n. (payload (nodes_of q n), record q { front = (q.front + n) % q.max_size }))
            suc_pred
        ∙ ap (λ ns. (payload ns, record q { front = (q.front + length g) % q.max_size })) f.first
        ∙ ap (λ bs. (bs, record q { front = (q.front + length g) % q.max_size })) p.carries

-- A call of `Dequeue` on an open queue: it waits just on an empty queue; otherwise it hands out the
-- bytes of the oldest message with their number, and the others stay.
pub dequeue-Holds :
    (q : ShareQueue) (count : ℕ) (messages : List Bytes)
    → Holds q count messages
    → ((messages ≡ []) × (dequeue q ≡ Outcome.wait))
      ⊎ ((message : Bytes) × (others : List Bytes) × (messages ≡ message ∷ others)
          × ((q' : ShareQueue) × (left : ℕ) × (dequeue q
                ≡ Outcome.done (length message, message, q'))
              × Holds q' left others))
unfolding HoldsAll dequeue dequeue_pass
dequeue-Holds q count [] v =
    let none_left : count ≡ 0 =
      sym (length-slots blank q.nodes q.max_size q.front count) ∙ ap length v.held in
    inl (refl, simp (v.is_open, empty_queue_lem q count v.ring, none_left) refl)
dequeue-Holds q count (message ∷ others) v =
    let (g, rest, e, p, h) = v.held in
    let f = nodes_of-Front q count g rest v.ring e p.nonempty in
    inr (
      message,
      others,
      refl,
      (
        _,
        count - length g,
        dequeue_done q count g rest message v.ring v.small v.is_open p f,
        record {
          ring = record {
            array = v.array;
            front_in = mod-lt (q.front + length g) (omega arith);
            count_in = omega (arith, f.fits);
            rear_at =
                v.rear_at ∙ sym (rw mod-add-mod (ap (λ k. k % q.max_size) (omega (arith, f.fits))));
          };
          is_open = v.is_open;
          small = v.small;
          held = rw (f.others) h;
        },
      ),
    )
