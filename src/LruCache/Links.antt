-- ===== src/LruCache/Links.antt =====
-- The nodes of the cache as a sequence: node `i` lies at the address `at i` and has the task
-- `content i`; node 0 is `lruHead`.
use native.Mathlib.Decide.{ℕ_discrete, dec_lt}
use simple_kv_svr.Base.{
  ℕ, suc, ◌+◌, ◌-◌, ◌≤◌, ◌<◌, none, some, ltb, ◌==◌, if◌then◌else◌, ◌≡◌, ◌≢◌, arith,
}
use simple_kv_svr.LruCache.{
  CachedTask, LruNode, Heap, override, write, write_through, set_next, set_prev, new_node,
  unlink_next, unlink,
}

-- Node `i` of a sequence with nodes 0 to `n`.
abbrev pub linked : ℕ → (ℕ → ℕ) → (ℕ → CachedTask) → ℕ → LruNode
linked n at content i = record {
  content = content i;
  next = if ltb i n then some (at (i + 1)) else none;
  prev = if i == 0 then none else some (at (i - 1));
}

abbrev pub IsLinked : Heap → ℕ → (ℕ → ℕ) → (ℕ → CachedTask) → Type 0
IsLinked h n at content = (i : ℕ) → i ≤ n → h (at i) ≡ some (linked n at content i)

-- The nodes lie at different addresses.
abbrev pub IsApart : ℕ → (ℕ → ℕ) → Type 0
IsApart n at = (i j : ℕ) → i ≤ n → j ≤ n → at i ≡ at j → i ≡ j

-- A sequence without its element `j`, and with a new element 1.
abbrev pub skip : {A : Type 0} → ℕ → (ℕ → A) → ℕ → A
skip j f i = if ltb i j then f i else f (i + 1)

abbrev pub push : {A : Type 0} → A → (ℕ → A) → ℕ → A
push a f i = if i == 0 then f 0 else if i == 1 then a else f (i - 1)

-- `unlink` of a node between two others.
unlink-inner :
    (h : Heap) (a p q : ℕ) (c : CachedTask) (before after : LruNode)
    → h a ≡ some (record { content = c; next = some q; prev = some p })
    → h p ≡ some before
    → h q ≡ some after
    → p ≢ q
    → a ≢ p
    → a ≢ q
    → unlink a h
      ≡ some (
          override a (some (new_node c)) (
            override q
              (some (set_prev (some p) after))
              (override p (some (set_next (some q) before)) h)))
unfolding unlink unlink_next write write_through
unlink-inner h a p q c before after e e₁ e₂ d₁ d₂ d₃ = ground arith

-- `unlink` of the last node.
unlink-last :
    (h : Heap) (a p : ℕ) (c : CachedTask) (before : LruNode)
    → h a ≡ some (record { content = c; next = none; prev = some p })
    → h p ≡ some before
    → a ≢ p
    → unlink a h
      ≡ some (override a (some (new_node c)) (override p (some (set_next none before)) h))
unfolding unlink unlink_next write write_through
unlink-last h a p c before e e₁ d₁ = ground arith

pub skip-lt : {A : Type 0} (j i : ℕ) (f : ℕ → A) → i < j → skip j f i ≡ f i
skip-lt j i f h = ground arith

pub skip-le : {A : Type 0} (j i : ℕ) (f : ℕ → A) → j ≤ i → skip j f i ≡ f (i + 1)
skip-le j i f h = ground arith

inner-IsLinked :
    (h : Heap) (n k : ℕ) (at : ℕ → ℕ) (content : ℕ → CachedTask)
    → IsLinked h (suc n) at content
    → IsApart (suc n) at
    → k < n
    → IsLinked
        (override (at (suc k)) (some (new_node (content (suc k)))) (
          override
            (at (suc (suc k)))
            (some (set_prev (some (at k)) (linked (suc n) at content (suc (suc k)))))
            (override
              (at k)
              (some (set_next (some (at (suc (suc k)))) (linked (suc n) at content k)))
              h)))
        n
        (skip (suc k) at)
        (skip (suc k) content)
inner-IsLinked h n k at content v apart low i hi = elim (dec_lt i k) [
  | yes before ↦ ground (
    arith,
    v i,
    apart i k,
    apart i (suc k),
    apart i (suc (suc k)),
    skip-lt (suc k) (i + 1) at,
    skip-lt (suc k) i at,
    skip-lt (suc k) (i - 1) at,
  )
  | no late ↦ elim (ℕ_discrete i k) [
    | yes here ↦ ground (
      arith,
      v i,
      apart i k,
      apart i (suc k),
      apart i (suc (suc k)),
      skip-le (suc k) (i + 1) at,
      skip-lt (suc k) i at,
      skip-lt (suc k) (i - 1) at,
    )
    | no later ↦ elim (ℕ_discrete i (suc k)) [
      | yes here ↦ ground (
        arith,
        v (i + 1),
        apart (i + 1) k,
        apart (i + 1) (suc k),
        apart (i + 1) (suc (suc k)),
        skip-le (suc k) (i + 1) at,
        skip-le (suc k) i at,
        skip-lt (suc k) (i - 1) at,
      )
      | no last ↦ ground (
        arith,
        v (i + 1),
        apart (i + 1) k,
        apart (i + 1) (suc k),
        apart (i + 1) (suc (suc k)),
        skip-le (suc k) (i + 1) at,
        skip-le (suc k) i at,
        skip-le (suc k) (i - 1) at,
      )
    ]
  ]
]

last-IsLinked :
    (h : Heap) (n : ℕ) (at : ℕ → ℕ) (content : ℕ → CachedTask)
    → IsLinked h (suc n) at content
    → IsApart (suc n) at
    → IsLinked
        (override
          (at (suc n))
          (some (new_node (content (suc n))))
          (override (at n) (some (set_next none (linked (suc n) at content n))) h))
        n
        (skip (suc n) at)
        (skip (suc n) content)
last-IsLinked h n at content v apart i hi = elim (dec_lt i n) [
  | yes before ↦ ground (
    arith,
    v i,
    apart i n,
    apart i (suc n),
    skip-lt (suc n) (i + 1) at,
    skip-lt (suc n) i at,
    skip-lt (suc n) (i - 1) at,
  )
  | no late ↦
      ground
        (arith, v i, apart i n, apart i (suc n), skip-lt (suc n) i at, skip-lt (suc n) (i - 1) at)
]

pub unlink-IsLinked :
    (h : Heap) (n k : ℕ) (at : ℕ → ℕ) (content : ℕ → CachedTask)
    → IsLinked h (suc n) at content
    → IsApart (suc n) at
    → k ≤ n
    → (h' : Heap) × (unlink (at (suc k)) h ≡ some h')
      × IsLinked h' n (skip (suc k) at) (skip (suc k) content)
      × (h' (at (suc k)) ≡ some (new_node (content (suc k))))
unlink-IsLinked h n k at content v apart low = elim (dec_lt k n) [
  | yes more ↦ (
    _,
    unlink-inner h (at (suc k)) (at k) (at (suc (suc k))) (content (suc k))
        (linked (suc n) at content k) (linked (suc n) at content (suc (suc k)))
        (ground (arith, v (suc k))) (v k (omega arith)) (v (suc (suc k)) (omega arith))
        (λ e. absurd (ground (arith, apart k (suc (suc k)))))
        (λ e. absurd (ground (arith, apart (suc k) k)))
        (λ e. absurd (ground (arith, apart (suc k) (suc (suc k))))),
    inner-IsLinked h n k at content v apart more,
    ground arith,
  )
  | no end ↦ rw (end_eq end) (
    _,
    unlink-last h (at (suc n)) (at n) (content (suc n)) (linked (suc n) at content n)
        (ground (arith, v (suc n))) (v n (omega arith))
        (λ e. absurd (ground (arith, apart (suc n) n))),
    last-IsLinked h n at content v apart,
    ground arith,
  )
]
  where
    end_eq : ¬ (k < n) → k ≡ n
    end_eq h = omega arith
