-- ===== src/Base/Words.antt =====
-- A 32-bit `int` as its bit pattern, a number below 2 ^ 32, and its image in a file: the four bytes
-- that a little-endian machine writes for it.
use Prim.Native.Nat.{ℕ, ◌+◌, ◌*◌, ◌/◌, ◌%◌, ◌^◌, ◌<◌}
use mathlib.Core.Path.{◌≡◌}
use mathlib.Core.Bool.{Bool, ◌&&◌}
use mathlib.Core.List.{List, [], ◌∷◌}
use native.Mathlib.Omega.{arith}
use simple_kv_svr.Base.Tests.{ltb}

-- The bit patterns of one `int`.
abbrev pub int_mod : ℕ
int_mod = 2 ^ 32

-- The least bit pattern that stands for a negative `int`.
abbrev pub int_sign : ℕ
int_sign = 2 ^ 31

-- `x > 0` of an `int`
abbrev pub is_positive : ℕ → Bool
is_positive x = ltb 0 x && ltb x int_sign

unfoldable pub int_bytes : ℕ → List ℕ
int_bytes w = (w % 256) ∷ (w / 256 % 256) ∷ (w / 65536 % 256) ∷ (w / 16777216 % 256) ∷ []

unfoldable pub int_of_bytes : ℕ → ℕ → ℕ → ℕ → ℕ
int_of_bytes a b c d = a + 256 * b + 65536 * c + 16777216 * d

pub int_of_bytes-int_bytes :
    (w : ℕ)
    → w < int_mod
    → int_of_bytes (w % 256) (w / 256 % 256) (w / 65536 % 256) (w / 16777216 % 256) ≡ w
unfolding int_of_bytes
int_of_bytes-int_bytes w h = omega arith
