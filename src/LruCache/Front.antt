-- ===== src/LruCache/Front.antt =====
-- `addToHead` on the sequence of the nodes.
use simple_kv_svr.Base.{
  ℕ, zero, suc, ◌-◌, ◌≤◌, ◌<◌, Option, none, some, ◌≡◌, ◌≢◌, sym, ap, ◌∙◌, arith,
}
use simple_kv_svr.LruCache.{
  CachedTask, LruNode, Heap, override, lru_head, write, write_through, set_next, set_prev, new_node,
  link_node, link_back,
}
use simple_kv_svr.LruCache.Links.{linked, IsLinked, IsApart, push}

-- The heap after the first half of `addToHead`.
abbrev fronted : ℕ → CachedTask → Option ℕ → Heap → Heap
fronted a t next h =
    override a (some (set_prev (some lru_head) (set_next next (new_node t))))
      (override a (some (set_next next (new_node t))) h)

link_node-fronted :
    (h : Heap) (a : ℕ) (t : CachedTask) (head : LruNode)
    → h lru_head ≡ some head
    → h a ≡ some (new_node t)
    → link_node a h ≡ some (fronted a t head.next h)
unfolding link_node write
link_node-fronted h a t head e e₁ = ground arith

link_back-alone :
    (h : Heap) (a : ℕ) (t : CachedTask) (head : LruNode)
    → h lru_head ≡ some head
    → a ≢ lru_head
    → link_back a (fronted a t none h)
      ≡ some (override lru_head (some (set_next (some a) head)) (fronted a t none h))
unfolding link_back write write_through
link_back-alone h a t head e d = ground arith

link_back-more :
    (h : Heap) (a q : ℕ) (t : CachedTask) (head first : LruNode)
    → h lru_head ≡ some head
    → h q ≡ some first
    → a ≢ lru_head
    → q ≢ lru_head
    → q ≢ a
    → link_back a (fronted a t (some q) h)
      ≡ some (
          override lru_head
            (some (set_next (some a) head))
            (override q (some (set_prev (some a) first)) (fronted a t (some q) h)))
unfolding link_back write write_through
link_back-more h a q t head first e e₁ d d₁ d₂ = ground arith

pub push-two : {A : Type 0} (a : A) (f : ℕ → A) (i : ℕ) → 1 < i → push a f i ≡ f (i - 1)
push-two a f i h = ground arith

more-IsLinked :
    (h : Heap) (a n : ℕ) (t : CachedTask) (at : ℕ → ℕ) (content : ℕ → CachedTask)
    → IsLinked h (suc n) at content
    → IsApart (suc n) at
    → at 0 ≡ lru_head
    → ((i : ℕ) → i ≤ suc n → at i ≢ a)
    → IsLinked
        (override lru_head (some (set_next (some a) (linked (suc n) at content 0))) (
          override
            (at 1)
            (some (set_prev (some a) (linked (suc n) at content 1)))
            (fronted a t (some (at 1)) h)))
        (suc (suc n))
        (push a at)
        (push t content)
more-IsLinked h a n t at content v apart head new zero hi = ground (arith, v 0, apart 0 1, new 0)
more-IsLinked h a n t at content v apart head new (suc zero) hi =
    ground (arith, apart 0 1, new 0, new 1)
more-IsLinked h a n t at content v apart head new (suc (suc zero)) hi =
    ground (arith, apart 0 1, new 0, new 1, v 1, push-two a at 3)
more-IsLinked h a n t at content v apart head new (suc (suc (suc i))) hi = ground (
  arith,
  apart (suc (suc i)) 0,
  apart (suc (suc i)) 1,
  new (suc (suc i)),
  v (suc (suc i)),
  push-two a at (suc (suc (suc (suc i)))),
  push-two a at (suc (suc i)),
)

alone-IsLinked :
    (h : Heap) (a : ℕ) (t : CachedTask) (at : ℕ → ℕ) (content : ℕ → CachedTask)
    → IsLinked h 0 at content
    → at 0 ≡ lru_head
    → at 0 ≢ a
    → IsLinked
        (override lru_head (some (set_next (some a) (linked 0 at content 0))) (fronted a t none h))
        1
        (push a at)
        (push t content)
alone-IsLinked h a t at content v head new zero hi = ground (arith, v 0)
alone-IsLinked h a t at content v head new (suc i) hi = ground arith

next-head :
    (n : ℕ) (at : ℕ → ℕ) (content : ℕ → CachedTask)
    → (linked (suc n) at content 0).next ≡ some (at 1)
next-head n at content = ground arith

pub link-IsLinked :
    (h : Heap) (a n : ℕ) (t : CachedTask) (at : ℕ → ℕ) (content : ℕ → CachedTask)
    → IsLinked h n at content
    → IsApart n at
    → at 0 ≡ lru_head
    → ((i : ℕ) → i ≤ n → at i ≢ a)
    → h a ≡ some (new_node t)
    → (h₁ : Heap) × (h₂ : Heap) × (link_node a h ≡ some h₁)
      × (link_back a h₁ ≡ some h₂)
      × IsLinked h₂ (suc n) (push a at) (push t content)
link-IsLinked h a zero t at content v apart head new e = (
  _,
  _,
  link_node-fronted h a t (linked 0 at content 0) (ap h (sym head) ∙ v 0 (omega arith)) e,
  link_back-alone h a t (linked 0 at content 0) (ap h (sym head) ∙ v 0 (omega arith))
      (λ s. new 0 (omega arith) (head ∙ sym s)),
  alone-IsLinked h a t at content v head (new 0 (omega arith)),
)
link-IsLinked h a (suc n) t at content v apart head new e = (
  _,
  _,
  link_node-fronted h a t (linked (suc n) at content 0) (ap h (sym head) ∙ v 0 (omega arith)) e
      ∙ ap (λ q. some (fronted a t q h)) (next-head n at content),
  link_back-more h a (at 1) t (linked (suc n) at content 0) (linked (suc n) at content 1)
      (ap h (sym head) ∙ v 0 (omega arith)) (v 1 (omega arith))
      (λ s. new 0 (omega arith) (head ∙ sym s)) (λ s. absurd (ground (arith, apart 1 0)))
      (new 1 (omega arith)),
  more-IsLinked h a n t at content v apart head new,
)
