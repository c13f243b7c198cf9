-- ===== src/Base/Ring.antt =====
-- Arrays used as rings: `count` slots from `start` on, with indices taken modulo `size`.
use Prim.Native.Nat.{ℕ, zero, suc, ◌+◌, ◌-◌, ◌%◌, ◌≤◌, ◌<◌}
use mathlib.Core.Path.{◌≡◌, refl, ap, ◌∙◌, sym}
use mathlib.Core.Logic.{◌≢◌, ◌⊎◌, inl, inr}
use mathlib.Core.List.{List, [], ◌∷◌, ◌++◌, append_assoc, append-nil}
use native.Mathlib.Nat.{add-zero, mod-add-mod, mod-eq_of_lt, mod-eq-sub-mod}
use native.Mathlib.Decide.{dec_lt}
use native.Mathlib.Omega.{arith}
use simple_kv_svr.Base.Lists.{length, get_or, set, length-append}

-- One turn round the ring at most.
pub mod_small : (x m : ℕ) → x < m → x % m ≡ x
mod_small x m h = mod-eq_of_lt h

mod_turn : (x m : ℕ) → m ≤ x → x < m + m → x % m ≡ x - m
mod_turn x m h k = mod-eq-sub-mod {n = x} {m = m} h ∙ mod-eq_of_lt {n = x - m} {m = m} (omega arith)

-- Two slots at different distances from the start are different.
pub slot-ne : (m s i j : ℕ) → s < m → i < j → j < m → (s + j) % m ≢ (s + i) % m
slot-ne m s i j hs hij hj = elim (dec_lt (s + i) m) [
  | yes p ↦ elim (dec_lt (s + j) m) [
    | yes q ↦ omega (arith, mod_small (s + i) m p, mod_small (s + j) m q)
    | no q ↦ omega (arith, mod_small (s + i) m p, mod_turn (s + j) m (omega arith) (omega arith))
  ]
  | no p ↦ omega (
    arith,
    mod_turn (s + i) m (omega arith) (omega arith),
    mod_turn (s + j) m (omega arith) (omega arith),
  )
]

-- A slot lies before the end of the array, or behind its start.
pub slot-cases :
    (m s i : ℕ)
    → s < m
    → i ≤ m
    → ((s + i < m) × ((s + i) % m ≡ s + i)) ⊎ ((m ≤ s + i) × ((s + i) % m + m ≡ s + i))
slot-cases m s i hs hi = elim (dec_lt (s + i) m) [
  | yes p ↦ inl (p, mod_small (s + i) m p)
  | no p ↦ inr (omega arith, omega (arith, mod_turn (s + i) m (omega arith) (omega arith)))
]

-- Going on from the next slot.
pub slot-next : (m s i : ℕ) → ((s + 1) % m + i) % m ≡ (s + suc i) % m
slot-next m s i = rw mod-add-mod (ap (λ k. k % m) (omega arith))

-- Going one slot on.
pub slot-after : (m s i : ℕ) → ((s + i) % m + 1) % m ≡ (s + suc i) % m
slot-after m s i = rw mod-add-mod (ap (λ k. k % m) (omega arith))

module _ {ℓ} {A : Type ℓ} where
  pub get_or-set_self :
      (xs : List A) (i : ℕ) (v d : A) → i < length xs → get_or (set xs i v) i d ≡ v
  get_or-set_self [] i v d h = absurd (omega arith)
  get_or-set_self (x ∷ xs) zero v d h = refl
  get_or-set_self (x ∷ xs) (suc i) v d h = get_or-set_self xs i v d (omega arith)

  pub get_or-set_ne :
      (xs : List A) (i j : ℕ) (v d : A) → j ≢ i → get_or (set xs i v) j d ≡ get_or xs j d
  get_or-set_ne [] i j v d h = refl
  get_or-set_ne (x ∷ xs) zero zero v d h = absurd (h refl)
  get_or-set_ne (x ∷ xs) zero (suc j) v d h = refl
  get_or-set_ne (x ∷ xs) (suc i) zero v d h = refl
  get_or-set_ne (x ∷ xs) (suc i) (suc j) v d h = get_or-set_ne xs i j v d (λ e. h (ap suc e))

module _ {ℓ} {A : Type ℓ} (d : A) where
  -- the items of `count` slots, the oldest first
  abbrev pub slots : List A → ℕ → ℕ → ℕ → List A
  slots buf size start zero = []
  slots buf size start (suc n) = slots buf size start n ++ (get_or buf ((start + n) % size) d ∷ [])

  pub slots-head :
      (buf : List A) (size start n : ℕ)
      → start < size
      → slots buf size start (suc n) ≡ get_or buf start d ∷ slots buf size ((start + 1) % size) n
  slots-head buf size start zero h = rw (add-zero, mod-eq_of_lt h)
  slots-head buf size start (suc n) h = rw (slots-head buf size start n h, slot-next size start n)

  pub slots-head_of_pos :
      (buf : List A) (size start n : ℕ)
      → start < size
      → 0 < n
      → slots buf size start n ≡ get_or buf start d ∷ slots buf size ((start + 1) % size) (n - 1)
  slots-head_of_pos buf size start zero h p = absurd (omega arith)
  slots-head_of_pos buf size start (suc n) h p =
      let e : n ≡ suc n - 1 = omega arith in
      slots-head buf size start n h
      ∙ ap (λ k. get_or buf start d ∷ slots buf size ((start + 1) % size) k) e

  -- A stretch is the stretch of its first slots and that of the others.
  pub slots-append :
      (buf : List A) (size start m n : ℕ)
      → slots buf size start (m + n)
        ≡ slots buf size start m ++ slots buf size ((start + m) % size) n
  slots-append buf size start m zero = rw (add-zero, append-nil (slots buf size start m)) refl
  slots-append buf size start m (suc n) =
      let e : m + suc n ≡ suc (m + n) = omega arith in
      let place : ((start + m) % size + n) % size ≡ (start + (m + n)) % size =
        rw mod-add-mod (ap (λ k. k % size) (omega arith)) in
      rw
        (
          e,
          place,
          ← append_assoc (slots buf size start m) (slots buf size ((start + m) % size) n)
              (get_or buf ((start + (m + n)) % size) d ∷ []),
          slots-append buf size start m n,
        )
        refl

  pub length-slots : (buf : List A) (size start n : ℕ) → length (slots buf size start n) ≡ n
  length-slots buf size start zero = refl
  length-slots buf size start (suc n) = omega (
    arith,
    length-slots buf size start n,
    length-append (slots buf size start n) (get_or buf ((start + n) % size) d ∷ []),
  )

  -- Writing a slot outside a stretch of slots leaves the stretch.
  pub slots-set :
      (buf : List A) (size start n j : ℕ) (x : A)
      → start < size
      → j < size
      → n ≤ j
      → slots (set buf ((start + j) % size) x) size start n ≡ slots buf size start n
  slots-set buf size start zero j x hs hj h = refl
  slots-set buf size start (suc n) j x hs hj h = rw (
    slots-set buf size start n j x hs hj (omega arith),
    get_or-set_ne buf ((start + j) % size) ((start + n) % size) x d
        (λ e. slot-ne size start n j hs h hj (sym e)),
  )

  -- Writing the slot behind a stretch makes it longer by that item.
  pub slots-set_next :
      (buf : List A) (size start n : ℕ) (x : A)
      → size ≤ length buf
      → start < size
      → n < size
      → slots (set buf ((start + n) % size) x) size start (suc n)
        ≡ slots buf size start n ++ (x ∷ [])
  slots-set_next buf size start n x hb hs hn = rw (
    slots-set buf size start n n x hs hn (omega arith),
    get_or-set_self buf ((start + n) % size) x d (omega arith),
  )
