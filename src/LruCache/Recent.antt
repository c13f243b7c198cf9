-- ===== src/LruCache/Recent.antt =====
-- What the cache promises: a list of tasks, the one used last in front, with different keys.
use simple_kv_svr.Base.{
  ℕ, zero, suc, ◌+◌, ◌-◌, ◌<◌, Option, none, some, List, [], ◌∷◌, length, get_elem?, take, ltb,
  if◌then◌else◌, Bytes, key_eq, key_eq_iff, ◌≡◌, ◌≢◌, refl, arith, inl, inr, Option-cases,
  Bool-cases,
}
use simple_kv_svr.LruCache.{CachedTask, key_of, max_cached}

unfoldable pub find_task : Bytes → List CachedTask → Option CachedTask
find_task k [] = none
find_task k (t ∷ l) = if key_eq (key_of t) k then some t else find_task k l

unfoldable pub forget : Bytes → List CachedTask → List CachedTask
forget k [] = []
forget k (t ∷ l) = let rest = forget k l in if key_eq (key_of t) k then l else t ∷ rest

-- The list after `getCache`.
unfoldable pub used : Bytes → List CachedTask → List CachedTask
unfolding find_task forget
used k l = elim (find_task k l) [ none ↦ l | some t ↦ t ∷ forget k l ]

-- The list after `addToCache`.
unfoldable pub added : CachedTask → List CachedTask → List CachedTask
added t l = take max_cached (t ∷ l)

unfoldable pub position : Bytes → List CachedTask → Option ℕ
position k [] = none
position k (t ∷ l) =
    let rest = position k l in
    if key_eq (key_of t) k then some 0 else elim rest [ none ↦ none | some i ↦ some (suc i) ]

-- No key stands in the list twice.
unfoldable pub IsDistinct : List CachedTask → Type 0
IsDistinct [] = Unit
IsDistinct (t ∷ l) = (position (key_of t) l ≡ none) × IsDistinct l

pub position-lt : (k : Bytes) (l : List CachedTask) (j : ℕ) → position k l ≡ some j → j < length l
unfolding position
position-lt k [] j h = absurd (cc)
position-lt k (t ∷ l) j h = elim (Option-cases (position k l)) [
  | inl absent ↦ ground arith
  | inr (i, there) ↦ ground (arith, position-lt k l i there)
]

pub position-none :
    (k : Bytes) (l : List CachedTask)
    → position k l ≡ none
    → (find_task k l ≡ none) × (forget k l ≡ l)
unfolding position find_task forget
position-none k [] h = (refl, refl)
position-none k (t ∷ l) h = elim (Option-cases (position k l)) [
  | inl absent ↦ ground (arith, position-none k l absent)
  | inr (i, there) ↦ absurd (ground arith)
]

pub position-some :
    (k : Bytes) (l : List CachedTask) (j : ℕ)
    → position k l ≡ some j
    → (t : CachedTask) × (find_task k l ≡ some t) × (get_elem? l j ≡ some t) × (key_of t ≡ k)
unfolding position find_task
position-some k [] j h = absurd (cc)
position-some k (t ∷ l) j h = elim (Bool-cases (key_eq (key_of t) k)) [
  | inl same ↦ (t, ground arith, ground arith, ground (arith, key_eq_iff (key_of t) k))
  | inr other ↦ elim (Option-cases (position k l)) [
    | inl absent ↦ absurd (ground arith)
    | inr (i, there) ↦
        let (u, found, at, key) = position-some k l i there in (u, ground arith, ground arith, key)
  ]
]

pub length-forget :
    (k : Bytes) (l : List CachedTask) (j : ℕ)
    → position k l ≡ some j
    → length (forget k l) + 1 ≡ length l
unfolding position forget
length-forget k [] j h = absurd (cc)
length-forget k (t ∷ l) j h = elim (Option-cases (position k l)) [
  | inl absent ↦ ground arith
  | inr (i, there) ↦ ground (arith, length-forget k l i there)
]

pub get_elem?-forget :
    (k : Bytes) (l : List CachedTask) (j i : ℕ)
    → position k l ≡ some j
    → get_elem? (forget k l) i ≡ (if ltb i j then get_elem? l i else get_elem? l (suc i))
unfolding position forget
get_elem?-forget k [] j i h = absurd (cc)
get_elem?-forget k (t ∷ l) j zero h = elim (Option-cases (position k l)) [
  | inl absent ↦ ground arith
  | inr (p, there) ↦ ground arith
]
get_elem?-forget k (t ∷ l) j (suc i) h = elim (Option-cases (position k l)) [
  | inl absent ↦ ground arith
  | inr (p, there) ↦ ground (arith, get_elem?-forget k l p i there)
]

-- The place of a key after another element, or the one of that key, is taken out.
abbrev pub shifted : ℕ → Option ℕ → Option ℕ
shifted j none = none
shifted j (some i) = some (if ltb i j then i else i - 1)

pub one_position :
    (k k' : Bytes) (l : List CachedTask) (i : ℕ)
    → position k l ≡ some i
    → position k' l ≡ some i
    → k ≡ k'
one_position k k' l i h h' =
    let (t, found, at, key) = position-some k l i h in
    let (t', found', at', key') = position-some k' l i h' in cc

pub position-forget_ne :
    (k k' : Bytes) (l : List CachedTask) (j : ℕ)
    → position k l ≡ some j
    → k ≢ k'
    → position k' (forget k l) ≡ shifted j (position k' l)
unfolding position forget
position-forget_ne k k' [] j h d = absurd (cc)
position-forget_ne k k' (t ∷ l) j h d = elim (Option-cases (position k l)) [
  | inl absent ↦ elim (Option-cases (position k' l)) [
    | inl absent' ↦ ground (arith, key_eq_iff (key_of t) k, key_eq_iff (key_of t) k')
    | inr (i, there) ↦ ground (arith, key_eq_iff (key_of t) k, key_eq_iff (key_of t) k')
  ]
  | inr (p, there) ↦ elim (Option-cases (position k' l)) [
    | inl absent' ↦ ground (
      arith,
      key_eq_iff (key_of t) k,
      key_eq_iff (key_of t) k',
      position-forget_ne k k' l p there,
    )
    | inr (i, there') ↦ ground (
      arith,
      one_position k k' l i,
      one_position k k' l p,
      key_eq_iff (key_of t) k,
      key_eq_iff (key_of t) k',
      position-forget_ne k k' l p there,
    )
  ]
]

pub position-forget_self :
    (k : Bytes) (l : List CachedTask) → IsDistinct l → position k (forget k l) ≡ none
unfolding position forget IsDistinct
position-forget_self k [] v = refl
position-forget_self k (t ∷ l) (alone, v) = elim (Bool-cases (key_eq (key_of t) k)) [
  | inl same ↦ ground (arith, key_eq_iff (key_of t) k)
  | inr other ↦ ground (arith, position-forget_self k l v)
]

position-forget-none :
    (k k' : Bytes) (l : List CachedTask) → position k' l ≡ none → position k' (forget k l) ≡ none
unfolding position forget
position-forget-none k k' [] h = refl
position-forget-none k k' (t ∷ l) h = elim (Option-cases (position k' l)) [
  | inl absent ↦ ground (arith, position-forget-none k k' l absent)
  | inr (i, there) ↦ absurd (ground arith)
]

pub forget-IsDistinct : (k : Bytes) (l : List CachedTask) → IsDistinct l → IsDistinct (forget k l)
unfolding forget IsDistinct
forget-IsDistinct k [] v = v
forget-IsDistinct k (t ∷ l) (alone, v) = elim (Bool-cases (key_eq (key_of t) k)) [
  | inl same ↦ rw same v
  | inr other ↦ rw other (position-forget-none k (key_of t) l alone, forget-IsDistinct k l v)
]

-- The key of the last element.
pub forget-last :
    (l : List CachedTask) (n : ℕ) (t : CachedTask)
    → IsDistinct l
    → length l ≡ suc n
    → get_elem? l n ≡ some t
    → (position (key_of t) l ≡ some n) × (forget (key_of t) l ≡ take n l)
unfolding position forget IsDistinct
forget-last [] n t v len at = absurd (omega arith)
forget-last (u ∷ []) zero t (alone, v) len at = ground (arith, key_eq_iff (key_of u) (key_of t))
forget-last (u ∷ w ∷ l) zero t (alone, v) len at = absurd (omega arith)
forget-last (u ∷ l) (suc n) t (alone, v) len at =
    let (there, rest) = forget-last l n t v (omega arith) at in
    ground (arith, key_eq_iff (key_of u) (key_of t))

pub used-none : (k : Bytes) (l : List CachedTask) → find_task k l ≡ none → used k l ≡ l
unfolding used
used-none k l h = ground arith

pub used-some :
    (k : Bytes) (l : List CachedTask) (t : CachedTask)
    → find_task k l ≡ some t
    → used k l ≡ t ∷ forget k l
unfolding used
used-some k l t h = ground arith

-- A list with another element in front.
pub cons-IsDistinct :
    (t : CachedTask) (l : List CachedTask)
    → position (key_of t) l ≡ none
    → IsDistinct l
    → IsDistinct (t ∷ l)
unfolding IsDistinct
cons-IsDistinct t l h v = (h, v)

pub position-cons :
    (k : Bytes) (t : CachedTask) (l : List CachedTask)
    → position k (t ∷ l) ≡ (
        if key_eq (key_of t) k
        then some 0
        else elim (position k l) [ none ↦ none | some i ↦ some (suc i) ])
unfolding position
position-cons k t l = refl
