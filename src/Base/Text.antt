-- ===== src/Base/Text.antt =====
-- Text constants as bytes, and numbers in decimal.
use Prim.Native.Nat.{ℕ, zero, suc, ◌+◌, ◌-◌, ◌*◌, ◌/◌, ◌%◌, ◌<◌}
use Prim.Native.Char.{code}
use Prim.Native.String.{String}
use mathlib.Core.List.{[], ◌∷◌, ◌++◌}
use mathlib.Core.Path.{◌≡◌, refl, ap, ◌∙◌}
use mathlib.Core.Bool.{Bool, true, false, ◌&&◌}
use native.Mathlib.Decide.{dec_lt}
use native.Mathlib.Omega.{arith}
use simple_kv_svr.Base.Tests.{leb, ◌==◌, if◌then◌else◌}
use simple_kv_svr.Base.Keys.{Bytes}

abbrev pub codes : String → Bytes
codes String.[] = []
codes (String.◌∷◌ c s) = code c ∷ codes s

-- The digits in front of `rest`, for a number below the fuel.
decimal_loop : ℕ → ℕ → Bytes → Bytes
decimal_loop zero n rest = rest
decimal_loop (suc fuel) n rest =
    let more = decimal_loop fuel (n / 10) ((n % 10 + b'0') ∷ rest) in
    if n / 10 == 0 then (n % 10 + b'0') ∷ rest else more

-- `%d` of a number that is not negative
unfoldable pub decimal : ℕ → Bytes
unfolding decimal_loop
decimal n = decimal_loop (n + 1) n []

abbrev pub is_digit : ℕ → Bool
is_digit c = leb b'0' c && leb c b'9'

-- The digits of a number that `operator>>` reads on from `n`, and the text behind them.
unfoldable pub read_digits : ℕ → Bytes → ℕ × Bytes
read_digits n [] = (n, [])
read_digits n (c ∷ text) =
    let further = read_digits (n * 10 + (c - b'0')) text in
    if is_digit c then further else (n, c ∷ text)

abbrev pub starts_digit : Bytes → Bool
starts_digit [] = false
starts_digit (c ∷ text) = is_digit c

read_digits-decimal_loop :
    (fuel n : ℕ) (rest : Bytes)
    → n < fuel
    → (read_digits 0 (decimal_loop fuel n rest) ≡ read_digits n rest)
      × (starts_digit (decimal_loop fuel n rest) ≡ true)
unfolding read_digits decimal_loop
read_digits-decimal_loop zero n rest h = absurd (omega arith)
read_digits-decimal_loop (suc fuel) n rest h = elim (dec_lt n 10) [
  | yes last ↦ ground arith
  | no more ↦
      let (ih, digit) =
        read_digits-decimal_loop fuel (n / 10) ((n % 10 + b'0') ∷ rest) (omega arith) in
      let e : n / 10 * 10 + (n % 10 + b'0' - b'0') ≡ n = omega arith in ground arith
]

decimal_loop-append :
    (fuel n : ℕ) (rest more : Bytes)
    → decimal_loop fuel n rest ++ more ≡ decimal_loop fuel n (rest ++ more)
unfolding decimal_loop
decimal_loop-append zero n rest more = refl
decimal_loop-append (suc fuel) n rest more =
    ground (arith, decimal_loop-append fuel (n / 10) ((n % 10 + b'0') ∷ rest) more)

-- A number in decimal is read as that number.
pub read_digits-decimal :
    (n : ℕ) (rest : Bytes)
    → (read_digits 0 (decimal n ++ rest) ≡ read_digits n rest)
      × (starts_digit (decimal n ++ rest) ≡ true)
unfolding decimal
read_digits-decimal n rest =
    let e = decimal_loop-append (n + 1) n [] rest in
    let (digits, digit) = read_digits-decimal_loop (n + 1) n rest (omega arith) in
    (ap (λ text. read_digits 0 text) e ∙ digits, ap starts_digit e ∙ digit)
