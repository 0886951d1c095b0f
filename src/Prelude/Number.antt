-- ===== src/Prelude/Number.antt =====
-- `strconv.Itoa` and `strconv.Atoi`, for Go's 64-bit `int`.
pub mod RoundTrip
use mathlib.Core.Bool.{Bool, true, false, ◌&&◌}
use mathlib.Core.Option.{Option, none, some}
use mathlib.Core.List.{[], ◌∷◌}
use Prim.Native.Nat.{ℕ, zero, suc, ◌+◌, ◌-◌, ◌*◌, ◌/◌, ◌%◌}
use kubernetes_cluster_monit.Prelude.Tests.{leb, ltb, ◌==◌, if◌then◌else◌}
use kubernetes_cluster_monit.Prelude.Text.{Text}
use kubernetes_cluster_monit.Prelude.Int.{ℤ, pos, negsuc}

-- The decimal digits of `n` in front of `acc`; the fuel exceeds the number of digits.
unfoldable pub digits : ℕ → ℕ → Text → Text
digits zero n acc = acc
digits (suc fuel) n acc =
    let d = b'0' + n % 10 in
    let rest = digits fuel (n / 10) (d ∷ acc) in if ltb n 10 then d ∷ acc else rest

unfoldable pub itoa_nat : ℕ → Text
unfolding digits
itoa_nat n = digits (suc n) n []

unfoldable pub itoa : ℤ → Text
unfolding itoa_nat
itoa (pos n) = itoa_nat n
itoa (negsuc n) = b'-' ∷ itoa_nat (suc n)

unfoldable pub is_digit : ℕ → Bool
is_digit c = leb b'0' c && leb c b'9'

-- The value of a run of digits, `none` for any other byte.
unfoldable pub digits_value : ℕ → Text → Option ℕ
unfolding is_digit
digits_value acc [] = some acc
digits_value acc (c ∷ s) =
    let rest = digits_value (acc * 10 + (c - b'0')) s in if is_digit c then rest else none

-- 2 ^ 63, the first number above `int`
abbrev pub int_limit : ℕ
int_limit = 9223372036854775808

-- A number that fits `int`, with its sign.
abbrev pub signed : Bool → Option ℕ → Option ℤ
signed negative none = none
signed true (some zero) = some (pos 0)
signed true (some (suc n)) = if ltb n int_limit then some (negsuc n) else none
signed false (some n) = if ltb n int_limit then some (pos n) else none

-- The digits behind a sign; there is at least one.
abbrev pub unsigned : Text → Option ℕ
unsigned [] = none
unsigned (c ∷ s) = digits_value 0 (c ∷ s)

-- `strconv.Atoi`; `none` is an error.
unfoldable pub atoi : Text → Option ℤ
unfolding digits_value
atoi [] = none
atoi (c ∷ s) =
    if c == b'-'
    then signed true (unsigned s)
    else if c == b'+'
    then signed false (unsigned s)
    else signed false (unsigned (c ∷ s))
