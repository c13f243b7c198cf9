-- ===== src/Base/Keys.antt =====
-- Byte strings as keys, and association lists over them: the `map<string, V>` of the sources.
-- The order of the entries is not that of a map; where a program goes through a map, FreeIndex/Disk gives its order.
use Prim.Native.Nat.{ℕ}
use mathlib.Core.Path.{◌≡◌, refl}
use mathlib.Core.Logic.{◌↔◌}
use mathlib.Core.Bool.{Bool, true, false, ◌&&◌}
use mathlib.Core.Option.{Option, none, some}
use mathlib.Core.List.{List, [], ◌∷◌}
use native.Mathlib.Omega.{arith}
use simple_kv_svr.Base.Tests.{◌==◌, if◌then◌else◌}

-- A byte string.
abbrev pub Bytes : Type 0
Bytes = List ℕ

-- `operator==` of two strings
unfoldable pub key_eq : Bytes → Bytes → Bool
key_eq [] [] = true
key_eq (x ∷ xs) (y ∷ ys) = (x == y) && key_eq xs ys
key_eq _ _ = false

pub key_eq_sound : (a b : Bytes) → key_eq a b ≡ true → a ≡ b
unfolding key_eq
key_eq_sound [] [] h = refl
key_eq_sound [] (y ∷ ys) h = ground arith
key_eq_sound (x ∷ xs) [] h = ground arith
key_eq_sound (x ∷ xs) (y ∷ ys) h = ground (arith, key_eq_sound xs ys)

pub key_eq_refl : (a : Bytes) → key_eq a a ≡ true
unfolding key_eq
key_eq_refl [] = refl
key_eq_refl (x ∷ xs) = ground (arith, key_eq_refl xs)

pub key_eq_iff : (a b : Bytes) → (key_eq a b ≡ true) ↔ (a ≡ b)
key_eq_iff a b = (key_eq_sound a b, λ e. rw e (key_eq_refl b))

abbrev pub Dict {ℓ} : Type ℓ → Type ℓ
Dict V = List (Bytes × V)

module _ {ℓ} {V : Type ℓ} where
  unfoldable pub lookup : Bytes → Dict V → Option V
  lookup k [] = none
  lookup k ((j, v) ∷ d) = if key_eq j k then some v else lookup k d

  -- `map[key] = value`
  unfoldable pub assign : Bytes → V → Dict V → Dict V
  assign k v [] = (k, v) ∷ []
  assign k v ((j, w) ∷ d) =
      let rest = assign k v d in if key_eq j k then (j, v) ∷ d else (j, w) ∷ rest

  -- `map.erase`
  unfoldable pub erase : Bytes → Dict V → Dict V
  erase k [] = []
  erase k ((j, w) ∷ d) = let rest = erase k d in if key_eq j k then rest else (j, w) ∷ rest

  pub lookup-assign :
      (k j : Bytes) (v : V) (d : Dict V)
      → lookup j (assign k v d) ≡ (if key_eq k j then some v else lookup j d)
  unfolding lookup assign
  lookup-assign k j v [] = refl
  lookup-assign k j v ((i, w) ∷ d) =
      ground (arith, key_eq_iff k j, key_eq_iff i k, key_eq_iff i j, lookup-assign k j v d)

  pub lookup-erase :
      (k j : Bytes) (d : Dict V) → lookup j (erase k d) ≡ (if key_eq k j then none else lookup j d)
  unfolding lookup erase
  lookup-erase k j [] = ground arith
  lookup-erase k j ((i, w) ∷ d) =
      ground (arith, key_eq_iff k j, key_eq_iff i k, key_eq_iff i j, lookup-erase k j d)
