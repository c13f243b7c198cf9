-- ===== src/LruCache/Sequence.antt =====
-- The list of the cache as a sequence of nodes, and what taking one out and adding one do to it.
use native.Mathlib.Decide.{dec_lt}
use simple_kv_svr.Base.{false, ℕ, suc, ◌+◌, ◌-◌, ◌≤◌, Option, none, some, ◌≡◌, ◌≢◌, refl, arith}
use simple_kv_svr.LruCache.{
  CachedTask, LruNode, Heap, Cache, override, lru_head, new_node, step_back, take_out, add_to_head,
  remove_node, remove_tail, drop_index, key_of,
}
use simple_kv_svr.LruCache.Links.{IsLinked, IsApart, skip, push, skip-lt, unlink-IsLinked}
use simple_kv_svr.LruCache.Front.{link-IsLinked}

-- Nodes 0 to `n`, from `lruHead` to the tail.
pub record IsSequence (s : Cache) (n : ℕ) (at : ℕ → ℕ) (content : ℕ → CachedTask) : Type 0 where
  pub links : IsLinked s.nodes n at content
  pub apart : IsApart n at
  pub head : at 0 ≡ lru_head
  pub tail : s.tail ≡ some (at n)

-- The same cache with another list.
abbrev pub relinked : Heap → Option ℕ → Cache → Cache
relinked h t s = record s { nodes = h; tail = t }

skip-IsApart : (n k : ℕ) (at : ℕ → ℕ) → IsApart (suc n) at → IsApart n (skip (suc k) at)
skip-IsApart n k at apart i j hi hj e =
    ground (arith, apart i j, apart (i + 1) (j + 1), apart i (j + 1), apart (i + 1) j)

push-IsApart :
    (n a : ℕ) (at : ℕ → ℕ)
    → IsApart n at
    → ((i : ℕ) → i ≤ n → at i ≢ a)
    → IsApart (suc n) (push a at)
push-IsApart n a at apart new i j hi hj e = ground (
  arith,
  apart 0 (j - 1),
  apart (i - 1) 0,
  apart (i - 1) (j - 1),
  new 0,
  new (i - 1),
  new (j - 1),
)

-- The address of a node that was taken out is none of the others'.
pub skip-new :
    (n k : ℕ) (at : ℕ → ℕ)
    → IsApart (suc n) at
    → k ≤ n
    → (i : ℕ) → i ≤ n
    → skip (suc k) at i ≢ at (suc k)
skip-new n k at apart low i hi e = ground (arith, apart i (suc k), apart (i + 1) (suc k))

step_back-inner :
    (s : Cache) (n : ℕ) (at : ℕ → ℕ) (content : ℕ → CachedTask)
    → IsSequence s (suc n) at content
    → step_back s ≡ some (record s { tail = some (at n) })
unfolding step_back
step_back-inner s n at content v = ground (arith, v.tail, v.links (suc n))

pub take_out-IsSequence :
    (s : Cache) (n k : ℕ) (at : ℕ → ℕ) (content : ℕ → CachedTask)
    → IsSequence s (suc n) at content
    → k ≤ n
    → (h : Heap) × (t : Option ℕ) × (take_out (at (suc k)) s ≡ some (relinked h t s))
      × IsSequence (relinked h t s) n (skip (suc k) at) (skip (suc k) content)
      × (h (at (suc k)) ≡ some (new_node (content (suc k))))
unfolding take_out
take_out-IsSequence s n k at content v low =
    let (h, out, links, alone) = unlink-IsLinked s.nodes n k at content v.links v.apart low in
    let back = step_back-inner s n at content v in
    (
      h,
      some (skip (suc k) at n),
      elim (dec_lt k n) [
        | yes inner ↦ ground (arith, v.tail, v.apart (suc k) (suc n))
        | no end ↦ ground (arith, v.tail)
      ],
      record {
        links = links;
        apart = skip-IsApart n k at v.apart;
        head = ground (arith, v.head);
        tail = refl;
      },
      alone,
    )

pub add_to_head-IsSequence :
    (s : Cache) (a n : ℕ) (t : CachedTask) (at : ℕ → ℕ) (content : ℕ → CachedTask)
    → IsSequence s n at content
    → ((i : ℕ) → i ≤ n → at i ≢ a)
    → s.nodes a ≡ some (new_node t)
    → (h : Heap) × (p : Option ℕ) × (add_to_head a s ≡ some (relinked h p s))
      × IsSequence (relinked h p s) (suc n) (push a at) (push t content)
unfolding add_to_head
add_to_head-IsSequence s a n t at content v new e =
    let (h₁, h, first, second, links) =
      link-IsLinked s.nodes a n t at content v.links v.apart v.head new e in
    (
      h,
      some (push a at (suc n)),
      ground (arith, v.tail, v.head, v.apart n 0, first, second),
      record {
        links = links;
        apart = push-IsApart n a at v.apart new;
        head = ground (arith, v.head);
        tail = refl;
      },
    )

-- `removeTail`, where the task that the last one was copied from is there: the last node is deleted, and the
-- key of its task is erased.
pub remove_tail-IsSequence :
    (s : Cache) (n : ℕ) (at : ℕ → ℕ) (content : ℕ → CachedTask)
    → IsSequence s (suc n) at content
    → s.gone (content (suc n)).buf ≡ false
    → (h : Heap) × (remove_tail s
        ≡ some (
            drop_index
              (key_of (content (suc n)))
              (relinked (override (at (suc n)) none h) (some (at n)) s)))
      × IsLinked (override (at (suc n)) none h) n at content
unfolding remove_tail remove_node
remove_tail-IsSequence s n at content v alive =
    let (h, out, links, alone) =
      unlink-IsLinked s.nodes n n at content v.links v.apart (omega arith) in
    let back = step_back-inner s n at content v in
    (
      h,
      ground (arith, v.tail, v.links (suc n)),
      λ i hi. ground (
        arith,
        links i,
        v.apart i (suc n),
        skip-lt (suc n) i at,
        skip-lt (suc n) (i + 1) at,
        skip-lt (suc n) (i - 1) at,
      ),
    )

-- Another object of the heap is none of the nodes.
pub override-IsLinked :
    (h : Heap) (a n : ℕ) (object : Option LruNode) (at : ℕ → ℕ) (content : ℕ → CachedTask)
    → IsLinked h n at content
    → ((i : ℕ) → i ≤ n → at i ≢ a)
    → IsLinked (override a object h) n at content
override-IsLinked h a n object at content v new i hi = ground (arith, v i, new i)
