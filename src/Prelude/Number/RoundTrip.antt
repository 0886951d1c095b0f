-- ===== src/Prelude/Number/RoundTrip.antt =====
-- `strconv.Atoi` reads what `strconv.Itoa` prints.
use mathlib.Core.Path.{◌≡◌, refl, sym, ap, ◌∙◌}
use mathlib.Core.Logic.{inl, inr}
use mathlib.Core.Bool.{Bool, true, false}
use mathlib.Core.Option.{Option, none, some}
use mathlib.Core.List.{[], ◌∷◌}
use Prim.Native.Nat.{ℕ, zero, suc, ◌+◌, ◌*◌, ◌/◌, ◌%◌, ◌<◌}
use native.Mathlib.Omega.{arith}
use kubernetes_cluster_monit.Prelude.Tests.{ltb, ◌==◌, Bool-cases}
use kubernetes_cluster_monit.Prelude.Lists.{all}
use kubernetes_cluster_monit.Prelude.Int.{pos, negsuc}
use kubernetes_cluster_monit.Prelude.Number.{
  digits, is_digit, digits_value, int_limit, signed, unsigned, itoa, itoa_nat, atoi,
}
use kubernetes_cluster_monit.Prelude.Text.{Text}

-- A text that begins with a digit.
record Leads (t : Text) : Type 0 where
  c : ℕ
  rest : Text
  is : t ≡ c ∷ rest
  digit : is_digit c ≡ true

digit_lem : (n : ℕ) → is_digit (b'0' + n % 10) ≡ true
unfolding is_digit
digit_lem n = ground arith

digits-Leads : (fuel n : ℕ) (t : Text) → Leads t → Leads (digits fuel n t)
unfolding digits
digits-Leads zero n t l = l
digits-Leads (suc fuel) n t l =
    let head : Leads ((b'0' + n % 10) ∷ t) = record {
      c = b'0' + n % 10;
      rest = t;
      is = refl;
      digit = digit_lem n;
    } in
    elim (Bool-cases (ltb n 10)) [
      | inl e ↦ rw e head
      | inr e ↦ rw e (digits-Leads fuel (n / 10) ((b'0' + n % 10) ∷ t) head)
    ]

digits_value-cons :
    (a n : ℕ) (t : Text) → digits_value a ((b'0' + n % 10) ∷ t) ≡ digits_value (a * 10 + n % 10) t
unfolding digits_value
digits_value-cons a n t = rw (digit_lem n) (ap (λ x. digits_value x t) (omega arith))

digits_value-digits :
    (fuel n : ℕ) (t : Text) → n < fuel → digits_value 0 (digits fuel n t) ≡ digits_value n t
unfolding digits
digits_value-digits zero n t l = absurd (omega arith)
digits_value-digits (suc fuel) n t l = elim (Bool-cases (ltb n 10)) [
  | inl e ↦ rw e (digits_value-cons 0 n t ∙ ap (λ x. digits_value x t) (ground arith))
  | inr e ↦ rw e (
      digits_value-digits fuel (n / 10) ((b'0' + n % 10) ∷ t) (ground arith)
      ∙ digits_value-cons (n / 10) n t
      ∙ ap (λ x. digits_value x t) (omega arith))
]

digits-suc-Leads : (n : ℕ) → Leads (digits (suc n) n [])
unfolding digits
digits-suc-Leads n =
    let head : Leads ((b'0' + n % 10) ∷ []) = record {
      c = b'0' + n % 10;
      rest = [];
      is = refl;
      digit = digit_lem n;
    } in
    elim (Bool-cases (ltb n 10)) [
      | inl e ↦ rw e head
      | inr e ↦ rw e (digits-Leads n (n / 10) ((b'0' + n % 10) ∷ []) head)
    ]

-- A text that begins with a digit has no sign.
atoi-cons :
    (c : ℕ) (rest : Text) (n : ℕ)
    → is_digit c ≡ true
    → digits_value 0 (c ∷ rest) ≡ some n
    → n < int_limit
    → atoi (c ∷ rest) ≡ some (pos n)
unfolding atoi is_digit
atoi-cons c rest n d v l =
    let no_minus : (c == b'-') ≡ false = ground arith in
    let no_plus : (c == b'+') ≡ false = ground arith in
    rw (no_minus, no_plus) (ap (signed false) v ∙ ground arith)

pub atoi-itoa : (n : ℕ) → n < int_limit → atoi (itoa (pos n)) ≡ some (pos n)
unfolding itoa itoa_nat digits_value
atoi-itoa n l =
    let lead = digits-suc-Leads n in
    ap atoi lead.is
    ∙ atoi-cons lead.c lead.rest n lead.digit
        (ap (digits_value 0) (sym lead.is) ∙ digits_value-digits (suc n) n [] (omega arith)) l

pub atoi-itoa_negsuc : (n : ℕ) → n < int_limit → atoi (itoa (negsuc n)) ≡ some (negsuc n)
unfolding itoa itoa_nat digits_value atoi
atoi-itoa_negsuc n l =
    let lead = digits-suc-Leads (suc n) in
    ap (λ t. signed true (unsigned t)) lead.is
    ∙ ap (signed true) (
        ap (digits_value 0) (sym lead.is)
        ∙ digits_value-digits (suc (suc n)) (suc n) [] (omega arith))
    ∙ ground arith

digits-all :
    (p : ℕ → Bool)
    → ((d : ℕ) → d < 10 → p (b'0' + d) ≡ true)
    → (fuel n : ℕ) (t : Text) → all p t ≡ true
    → all p (digits fuel n t) ≡ true
unfolding digits
digits-all p is zero n t e = e
digits-all p is (suc fuel) n t e =
    let head : all p ((b'0' + n % 10) ∷ t) ≡ true = rw (is (n % 10) (omega arith), e) refl in
    elim (Bool-cases (ltb n 10)) [
      | inl l ↦ rw l head
      | inr l ↦ rw l (digits-all p is fuel (n / 10) ((b'0' + n % 10) ∷ t) head)
    ]

-- What holds of every digit holds of every byte of a printed number.
pub itoa_nat-all :
    (p : ℕ → Bool) → ((d : ℕ) → d < 10 → p (b'0' + d) ≡ true) → (n : ℕ) → all p (itoa_nat n) ≡ true
unfolding itoa_nat
itoa_nat-all p is n = digits-all p is (suc n) n [] refl

signed_bound :
    (negative : Bool) (o : Option ℕ) (n : ℕ) → signed negative o ≡ some (negsuc n) → n < int_limit
signed_bound true none n e = absurd (cc)
signed_bound false none n e = absurd (cc)
signed_bound true (some zero) n e = absurd (cc)
signed_bound true (some (suc m)) n e = ground arith
signed_bound false (some m) n e = ground arith

-- No number below the least one of 64 bits is read.
pub atoi_bound : (t : Text) (n : ℕ) → atoi t ≡ some (negsuc n) → n < int_limit
unfolding atoi
atoi_bound [] n e = absurd (cc)
atoi_bound (c ∷ s) n e = elim (Bool-cases (c == b'-')) [
  | inl m ↦ signed_bound true (unsigned s) n (rw m at e)
  | inr m ↦ elim (Bool-cases (c == b'+')) [
    | inl p ↦ signed_bound false (unsigned s) n (rw (m, p) at e)
    | inr p ↦ signed_bound false (unsigned (c ∷ s)) n (rw (m, p) at e)
  ]
]
