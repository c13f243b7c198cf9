-- ===== src/FreeIndex/Disk/KeyOrder.antt =====
-- The order of the keys of a map: the elements in it are those of the map.
use mathlib.Core.Path.{subst}
use simple_kv_svr.Base.{
  true, false, none, some, [], ◌∷◌, if◌then◌else◌, Bytes, Dict, lookup, key_eq, key_eq_iff, ◌≡◌,
  refl, arith, Bool-cases, inl, inr,
}
use simple_kv_svr.SlotIndex.{Entry}
use simple_kv_svr.FreeIndex.Disk.{key_lt, put_sorted, by_key}

key_lt_irrefl : (a b : Bytes) → key_lt a b ≡ true → key_eq b a ≡ false
unfolding key_lt key_eq
key_lt_irrefl [] [] h = absurd (cc)
key_lt_irrefl [] (y ∷ ys) h = refl
key_lt_irrefl (x ∷ xs) [] h = absurd (cc)
key_lt_irrefl (x ∷ xs) (y ∷ ys) h = ground (arith, key_lt_irrefl xs ys)

lookup-put_sorted :
    (k j : Bytes) (e : Entry) (d : Dict Entry)
    → lookup j (put_sorted k e d) ≡ (if key_eq k j then some e else lookup j d)
unfolding lookup put_sorted
lookup-put_sorted k j e [] = refl
lookup-put_sorted k j e ((i, f) ∷ d) = ground (
  arith,
  key_eq_iff k i,
  key_eq_iff k j,
  key_eq_iff i j,
  key_lt_irrefl i k,
  lookup-put_sorted k j e d,
)

pub lookup-by_key : (k : Bytes) (d : Dict Entry) → lookup k (by_key d) ≡ lookup k d
unfolding lookup by_key
lookup-by_key k [] = refl
lookup-by_key k ((j, e) ∷ d) = ground (arith, lookup-put_sorted j k e (by_key d), lookup-by_key k d)

key_lt_trans : (a b c : Bytes) → key_lt a b ≡ true → key_lt b c ≡ true → key_lt a c ≡ true
unfolding key_lt
key_lt_trans [] [] c h h' = absurd (cc)
key_lt_trans [] (y ∷ ys) [] h h' = absurd (cc)
key_lt_trans [] (y ∷ ys) (z ∷ zs) h h' = refl
key_lt_trans (x ∷ xs) [] c h h' = absurd (cc)
key_lt_trans (x ∷ xs) (y ∷ ys) [] h h' = absurd (cc)
key_lt_trans (x ∷ xs) (y ∷ ys) (z ∷ zs) h h' = ground (arith, key_lt_trans xs ys zs)

key_lt-total : (a b : Bytes) → key_eq a b ≡ false → key_lt b a ≡ false → key_lt a b ≡ true
unfolding key_lt key_eq
key_lt-total [] [] h h' = absurd (cc)
key_lt-total [] (y ∷ ys) h h' = refl
key_lt-total (x ∷ xs) [] h h' = absurd (cc)
key_lt-total (x ∷ xs) (y ∷ ys) h h' = ground (arith, key_lt-total xs ys)

-- The key comes before those of the list.
pub IsBelow : Bytes → Dict Entry → Type 0
IsBelow k [] = Unit
IsBelow k ((j, e) ∷ d) = (key_lt k j ≡ true) × IsBelow k d

unfoldable pub IsSorted : Dict Entry → Type 0
unfolding IsBelow
IsSorted [] = Unit
IsSorted ((k, e) ∷ d) = IsBelow k d × IsSorted d

IsBelow-trans : (k j : Bytes) (d : Dict Entry) → key_lt k j ≡ true → IsBelow j d → IsBelow k d
unfolding IsBelow
IsBelow-trans k j [] h v = tt
IsBelow-trans k j ((i, e) ∷ d) h (first, v) = (key_lt_trans k j i h first, IsBelow-trans k j d h v)

pub lookup-below : (k : Bytes) (d : Dict Entry) → IsBelow k d → lookup k d ≡ none
unfolding IsBelow lookup
lookup-below k [] v = refl
lookup-below k ((j, e) ∷ d) (first, v) = ground (arith, key_lt_irrefl k j, lookup-below k d v)

put_sorted-IsBelow :
    (i k : Bytes) (e : Entry) (d : Dict Entry)
    → key_lt i k ≡ true
    → IsBelow i d
    → IsBelow i (put_sorted k e d)
unfolding IsBelow put_sorted
put_sorted-IsBelow i k e [] h v = (h, tt)
put_sorted-IsBelow i k e ((j, f) ∷ d) h (first, v) = elim (Bool-cases (key_eq k j)) [
  | inl same ↦ rw same (h, v)
  | inr other ↦ elim (Bool-cases (key_lt j k)) [
    | inl before ↦ rw (other, before) (first, put_sorted-IsBelow i k e d h v)
    | inr behind ↦ rw (other, behind) (h, (first, v))
  ]
]

put_sorted-IsSorted :
    (k : Bytes) (e : Entry) (d : Dict Entry) → IsSorted d → IsSorted (put_sorted k e d)
unfolding IsSorted IsBelow put_sorted
put_sorted-IsSorted k e [] v = (tt, tt)
put_sorted-IsSorted k e ((i, f) ∷ d) (first, v) = elim (Bool-cases (key_eq k i)) [
  | inl same ↦
      let e' : i ≡ k = ground (arith, key_eq_iff k i) in
      rw same (subst (λ j. IsBelow j d) e' first, v)
  | inr other ↦ elim (Bool-cases (key_lt i k)) [
    | inl before ↦
        rw (other, before) (put_sorted-IsBelow i k e d before first, put_sorted-IsSorted k e d v)
    | inr behind ↦
        let less = key_lt-total k i other behind in
        rw (other, behind) ((less, IsBelow-trans k i d less first), (first, v))
  ]
]

pub by_key-IsSorted : (d : Dict Entry) → IsSorted (by_key d)
unfolding by_key IsSorted
by_key-IsSorted [] = tt
by_key-IsSorted ((k, e) ∷ d) = put_sorted-IsSorted k e (by_key d) (by_key-IsSorted d)
