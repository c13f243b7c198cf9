-- ===== src/ShmQueue/Nodes.antt =====
-- The loops of `Enqueue` and `Dequeue` over the nodes of the ring.
use simple_kv_svr.Base.{
  ℕ, zero, suc, ◌+◌, ◌*◌, ◌%◌, ◌≤◌, ◌<◌, List, [], ◌∷◌, ◌++◌, length, take, drop, Bytes, ◌≡◌, refl,
  ap, sym, ◌∙◌, arith, slots, slots-head, slots-set_next, slot-next, slot-after, length-set,
  length-slots, append_assoc, append-nil, take-append_length, length-take_of_le, length-drop,
  take-append-drop,
}
use simple_kv_svr.ShmQueue.{
  ShareQueueNode, ShareQueue, node_size, blank, node_at, last_len, fill_node, fill_last, fill_whole,
  fill_nodes, read_nodes, overlay,
}

-- The `count` nodes from the front on.
abbrev pub nodes_of : ShareQueue → ℕ → List ShareQueueNode
nodes_of q count = slots blank q.nodes q.max_size q.front count

-- The bytes that a run of nodes carries: all but the last are full.
abbrev pub payload : List ShareQueueNode → Bytes
payload [] = []
payload (n ∷ []) = take n.len n.buf
payload (n ∷ n' ∷ ns) = take node_size n.buf ++ payload (n' ∷ ns)

-- The ring and how many nodes of it are in use.
pub record IsRing (q : ShareQueue) (count : ℕ) : Type 0 where
  pub array : length q.nodes ≡ q.max_size
  pub front_in : q.front < q.max_size
  pub count_in : count < q.max_size
  pub rear_at : q.rear ≡ (q.front + count) % q.max_size

pub fill_node-IsRing :
    (change : ShareQueueNode → ShareQueueNode) (q : ShareQueue) (count : ℕ)
    → IsRing q count
    → suc count < q.max_size
    → IsRing (fill_node change q) (suc count)
fill_node-IsRing change q count v h = ground (
  arith,
  length-set q.nodes q.rear (change (node_at q q.rear)),
  slot-after q.max_size q.front count,
)

pub nodes_of-fill_node :
    (change : ShareQueueNode → ShareQueueNode) (q : ShareQueue) (count : ℕ)
    → IsRing q count
    → nodes_of (fill_node change q) (suc count)
      ≡ nodes_of q count ++ (change (node_at q q.rear) ∷ [])
nodes_of-fill_node change q count v =
    ground
      (arith, slots-set_next blank q.nodes q.max_size q.front count (change (node_at q q.rear)))

-- `m_Len` of the last of some nodes
abbrev pub end_len : List ShareQueueNode → ℕ
end_len [] = 0
end_len (n ∷ []) = n.len
end_len (n ∷ n' ∷ ns) = end_len (n' ∷ ns)

-- `m_nodes` of the first of some nodes
abbrev pub announced : List ShareQueueNode → ℕ
announced [] = 0
announced (n ∷ ns) = n.nodes

payload-cons :
    (n : ShareQueueNode) (ns : List ShareQueueNode)
    → 0 < length ns
    → payload (n ∷ ns) ≡ take node_size n.buf ++ payload ns
payload-cons n [] h = elim h [ ]
payload-cons n (n' ∷ ns) h = refl

end_len-cons :
    (n : ShareQueueNode) (ns : List ShareQueueNode) → 0 < length ns → end_len (n ∷ ns) ≡ end_len ns
end_len-cons n [] h = elim h [ ]
end_len-cons n (n' ∷ ns) h = refl

take-overlay :
    (n : ℕ) (rest buf : Bytes) → n ≤ length rest → take n (overlay (take n rest) buf) ≡ take n rest
take-overlay n rest buf h =
    take-append_length n (take n rest) (drop (length (take n rest)) buf)
      (sym (length-take_of_le n rest h))

pub take_all : (n : ℕ) (xs : Bytes) → n ≡ length xs → take n xs ≡ xs
take_all n xs h = ap (take n) (sym (append-nil xs)) ∙ take-append_length n xs [] h

-- What filling some nodes behind the `count` nodes in use of `q` has made of it: the run `g`, which carries `rest`.
pub record Filled (q : ShareQueue) (count : ℕ) (rest : Bytes) (last n : ℕ) (g : List ShareQueueNode)
    (q' : ShareQueue) : Type 0 where
  pub size : length g ≡ n
  pub ring : IsRing q' (count + n)
  pub front : q'.front ≡ q.front
  pub max_size : q'.max_size ≡ q.max_size
  pub shut_down : q'.shut_down ≡ q.shut_down
  pub carries : payload g ≡ rest
  pub ends : end_len g ≡ last
  pub announces : announced g ≡ (node_at q q.rear).nodes
  pub order : nodes_of q' (count + n) ≡ nodes_of q count ++ g

pub fill_nodes-Filled :
    (left buf_len : ℕ) (rest : Bytes) (q : ShareQueue) (count : ℕ)
    → IsRing q count
    → count + suc left < q.max_size
    → left * node_size + last_len buf_len ≡ length rest
    → (g : List ShareQueueNode) × Filled q count rest
        (last_len buf_len)
        (suc left)
        g
        (fill_nodes (suc left) buf_len rest q)
unfolding fill_nodes
fill_nodes-Filled zero buf_len rest q count v room e =
    let change = fill_last buf_len rest in
    let e₁ : suc count ≡ count + 1 = omega arith in
    (
      change (node_at q q.rear) ∷ [],
      record {
        size = refl;
        ring = rw (← e₁) (fill_node-IsRing change q count v (omega arith));
        front = refl;
        max_size = refl;
        shut_down = refl;
        carries =
            take-overlay (last_len buf_len) rest (node_at q q.rear).buf (omega arith)
            ∙ take_all (last_len buf_len) rest (omega arith);
        ends = refl;
        announces = refl;
        order = rw (← e₁) (nodes_of-fill_node change q count v);
      },
    )
fill_nodes-Filled (suc left) buf_len rest q count v room e =
    let change = fill_whole rest in
    let q₁ = fill_node change q in
    let (g, f) =
      fill_nodes-Filled left buf_len (drop node_size rest) q₁ (suc count)
        (fill_node-IsRing change q count v (omega arith)) (omega arith)
        (omega (arith, length-drop node_size rest)) in
    let e' : suc count + suc left ≡ count + suc (suc left) = omega arith in
    let nonempty : 0 < length g = omega (arith, f.size) in
    (
      change (node_at q q.rear) ∷ g,
      record {
        size = ap suc f.size;
        ring = rw (← e') f.ring;
        front = f.front;
        max_size = f.max_size;
        shut_down = f.shut_down;
        carries =
            payload-cons (change (node_at q q.rear)) g nonempty
            ∙ rw (f.carries, take-overlay node_size rest (node_at q q.rear).buf (omega arith))
                (take-append-drop node_size rest);
        ends = end_len-cons (change (node_at q q.rear)) g nonempty ∙ f.ends;
        announces = refl;
        order = rw (
          ← e',
          f.order,
          nodes_of-fill_node change q count v,
          append_assoc (nodes_of q count) (change (node_at q q.rear) ∷ []) g,
        );
      },
    )

pub read_nodes-payload :
    (left : ℕ) (q : ShareQueue)
    → q.front < q.max_size
    → read_nodes (suc left) q
      ≡ (payload (nodes_of q (suc left)), record q { front = (q.front + suc left) % q.max_size })
unfolding read_nodes
read_nodes-payload zero q h =
    ap (λ ns. (payload ns, record q { front = (q.front + 1) % q.max_size }))
      (sym (slots-head blank q.nodes q.max_size q.front 0 h))
read_nodes-payload (suc left) q h =
    let q₁ = record q { front = (q.front + 1) % q.max_size } in
    let further = read_nodes-payload left q₁ (omega arith) in
    let cons = payload-cons (node_at q q.front) (nodes_of q₁ (suc left)) (
      omega
        (arith, length-slots blank q.nodes q.max_size ((q.front + 1) % q.max_size) (suc left))) in
    let whole = ap payload (slots-head blank q.nodes q.max_size q.front (suc left) h) in
    rw (further, slot-next q.max_size q.front (suc left))
      (ap (λ bs. (bs, record q { front = (q.front + suc (suc left)) % q.max_size }))
        (sym (whole ∙ cons)))
