-- ===== src/ShmQueue/Messages.antt =====
-- The ring of nodes as a queue of byte strings.
use native.Mathlib.Decide.{dec_lt}
use simple_kv_svr.Base.{
  ℕ, suc, ◌+◌, ◌-◌, ◌*◌, ◌/◌, ◌≤◌, ◌<◌, false, some, List, [], ◌∷◌, ◌++◌, length, Bytes, int_mod,
  int_sign, ◌≡◌, refl, ap, sym, ◌∙◌, arith, slots-set, length-set, length-replicate, slot-cases,
  slot-after, append_assoc, append-nil, get_or-set_self, ◌==◌, inl, inr, ◌⊎◌,
}
use simple_kv_svr.ShmQueue.{
  ShareQueueNode, ShareQueue, Outcome, create, announce, node_size, blank, node_at, need_nodes,
  last_len, empty_nodes, full_queue, empty_queue, fill_nodes, enqueue_pass, enqueue,
}
use simple_kv_svr.ShmQueue.Nodes.{nodes_of, payload, IsRing, end_len, announced, fill_nodes-Filled}

-- The nodes `g` are the nodes of one message.
pub record IsGroup (g : List ShareQueueNode) (message : Bytes) : Type 0 where
  pub nonempty : 0 < length g
  pub carries : payload g ≡ message
  pub counted : announced g ≡ length g
  pub measured : (length g - 1) * node_size + end_len g ≡ length message
  pub short : length message < int_mod

-- The nodes hold the messages, group behind group.
unfoldable pub HoldsAll : List ShareQueueNode → List Bytes → Type 0
HoldsAll ns [] = ns ≡ []
HoldsAll ns (message ∷ messages) =
    (g : List ShareQueueNode) × (rest : List ShareQueueNode) × (ns ≡ g ++ rest)
    × IsGroup g message
    × HoldsAll rest messages

-- The queue holds these messages, the oldest first, in `count` nodes.
pub record Holds (q : ShareQueue) (count : ℕ) (messages : List Bytes) : Type 0 where
  pub ring : IsRing q count
  pub open ring use *
  pub is_open : q.shut_down ≡ false
  pub small : q.max_size < int_sign
  pub held : HoldsAll (nodes_of q count) messages

HoldsAll-append :
    (ns : List ShareQueueNode) (messages : List Bytes) (g : List ShareQueueNode) (message : Bytes)
    → HoldsAll ns messages
    → IsGroup g message
    → HoldsAll (ns ++ g) (messages ++ (message ∷ []))
unfolding HoldsAll
HoldsAll-append ns [] g message h v = (g, [], rw (h, append-nil g) refl, v, refl)
HoldsAll-append ns (m ∷ messages) g message (g₁, rest, e, v₁, h) v = (
  g₁,
  rest ++ g,
  rw (e, append_assoc g₁ rest g) refl,
  v₁,
  HoldsAll-append rest messages g message h v,
)

empty_nodes_lem :
    (q : ShareQueue) (count : ℕ) → IsRing q count → empty_nodes q ≡ q.max_size - 1 - count
unfolding empty_nodes
empty_nodes_lem q count v = elim (slot-cases q.max_size q.front count v.front_in (omega arith)) [
  | inl (h, e) ↦ ground arith
  | inr (h, e) ↦ ground arith
]

-- The nodes of a message are just as many as it takes.
need_nodes_lem :
    (n : ℕ)
    → 0 < n
    → n < int_mod
    → (left : ℕ) × (need_nodes n ≡ suc left) × (left * node_size + last_len n ≡ n)
unfolding need_nodes last_len
need_nodes_lem n pos h = ((n - 1) / 512, ground arith, ground arith)

full_queue_lem :
    (q : ShareQueue) (count : ℕ) → IsRing q count → full_queue q ≡ (count + 1 == q.max_size)
unfolding full_queue
full_queue_lem q count v =
    elim (slot-cases q.max_size q.front (suc count) v.front_in (omega arith)) [
      | inl (h, e) ↦ ground (arith, slot-after q.max_size q.front count)
      | inr (h, e) ↦ ground (arith, slot-after q.max_size q.front count)
    ]

pub empty_queue_lem : (q : ShareQueue) (count : ℕ) → IsRing q count → empty_queue q ≡ (count == 0)
unfolding empty_queue
empty_queue_lem q count v = elim (slot-cases q.max_size q.front count v.front_in (omega arith)) [
  | inl (h, e) ↦ ground arith
  | inr (h, e) ↦ ground arith
]

-- Noting the number of nodes in the first free node.
announce-IsRing :
    (n : ℕ) (q : ShareQueue) (count : ℕ) → IsRing q count → IsRing (announce n q) count
announce-IsRing n q count v =
    ground (arith, length-set q.nodes q.rear (record (node_at q q.rear) { nodes = n }))

nodes_of-announce :
    (n : ℕ) (q : ShareQueue) (count : ℕ)
    → IsRing q count
    → nodes_of (announce n q) count ≡ nodes_of q count
nodes_of-announce n q count v = ground (
  arith,
  slots-set blank q.nodes q.max_size q.front count count (record (node_at q q.rear) { nodes = n }),
)

node_at-announce :
    (n : ℕ) (q : ShareQueue) (count : ℕ)
    → IsRing q count
    → (node_at (announce n q) q.rear).nodes ≡ n
node_at-announce n q count v = elim (slot-cases q.max_size q.front count v.front_in (omega arith)) [
  | inl (h, e) ↦
      ap (λ m. m.nodes)
        (get_or-set_self q.nodes q.rear (record (node_at q q.rear) { nodes = n }) blank
          (ground arith))
  | inr (h, e) ↦
      ap (λ m. m.nodes)
        (get_or-set_self q.nodes q.rear (record (node_at q q.rear) { nodes = n }) blank
          (ground arith))
]

-- The nodes that `Enqueue` fills are a group that holds the message.
pub fill-Holds :
    (q : ShareQueue) (count : ℕ) (messages : List Bytes) (buf : Bytes)
    → Holds q count messages
    → 0 < length buf
    → length buf < int_mod
    → count + need_nodes (length buf) < q.max_size
    → Holds
        (fill_nodes
          (need_nodes (length buf))
          (length buf)
          buf
          (announce (need_nodes (length buf)) q))
        (count + need_nodes (length buf))
        (messages ++ (buf ∷ []))
fill-Holds q count messages buf v pos short room =
    let (left, need, whole) = need_nodes_lem (length buf) pos short in
    let q₁ = announce (suc left) q in
    let (g, f) =
      fill_nodes-Filled left (length buf) buf q₁ count (announce-IsRing (suc left) q count v.ring)
        (omega arith) whole in
    rw (need) (record {
      ring = f.ring;
      is_open = f.shut_down ∙ v.is_open;
      small = omega (arith, f.max_size, v.small);
      held =
          rw (f.order, nodes_of-announce (suc left) q count v.ring)
            (HoldsAll-append (nodes_of q count) messages g buf v.held (record {
              nonempty = omega (arith, f.size);
              carries = f.carries;
              counted = f.announces ∙ node_at-announce (suc left) q count v.ring ∙ sym f.size;
              measured = omega (arith, f.size, f.ends, whole);
              short = short;
            }));
    })

-- A call of `Enqueue` on an open queue, with a message that is not empty: it waits just when the
-- free nodes, of which one always stays free, are too few; otherwise it returns 0 and the message is
-- behind the others.
pub enqueue-Holds :
    (q : ShareQueue) (count : ℕ) (messages : List Bytes) (buf : Bytes)
    → Holds q count messages
    → 0 < length buf
    → length buf < int_mod
    → ((q.max_size ≤ count + need_nodes (length buf)) × (enqueue (some buf) q ≡ Outcome.wait))
      ⊎ ((count + need_nodes (length buf) < q.max_size)
          × ((q' : ShareQueue) × (enqueue (some buf) q ≡ Outcome.done q')
              × Holds q' (count + need_nodes (length buf)) (messages ++ (buf ∷ []))))
unfolding enqueue enqueue_pass
enqueue-Holds q count messages buf v pos short =
    let full = full_queue_lem q count v.ring in
    let empty = empty_nodes_lem q count v.ring in
    elim (dec_lt (count + need_nodes (length buf)) q.max_size) [
      | yes room ↦ inr (room, (_, ground arith, fill-Holds q count messages buf v pos short room))
      | no tight ↦ inl (omega arith, ground arith)
    ]

-- A new queue holds nothing.
pub create-Holds :
    (max_size : ℕ) → 0 < max_size → max_size < int_sign → Holds (create max_size) 0 []
unfolding create HoldsAll
create-Holds max_size pos small = record {
  ring = ground (arith, length-replicate max_size blank);
  is_open = refl;
  small = small;
  held = refl;
}
