-- ===== src/Prelude/Text/Digits.antt =====
-- Numbers that are printed and read back: strconv.FormatInt with strconv.ParseInt, and the digits in
-- time.Duration.String with time.ParseDuration.
use Prim.Native.Nat.{ℕ, zero, suc, ◌+◌, ◌-◌, ◌*◌, ◌^◌, ◌/◌, ◌%◌, ◌≤◌, ◌<◌}
use Prim.Native.Char.{Char, nul, code}
use Prim.Native.String
use Prim.Native.String.{String, [], ◌∷◌}
use mathlib.Core.Path.{◌≡◌, refl, sym, ap, ◌∙◌}
use mathlib.Core.Bool.{Bool, true, false}
use mathlib.Core.Logic.{inl, inr}
use mathlib.Core.Option.{some}
use native.Mathlib.Omega.{arith}
use text.Mathlib.TextLemmas.{cons-append, nil-append}
use scm_metrics_exporter.Prelude.Tests.{ltb, ◌==◌, nat_eq, Bool-cases}
use scm_metrics_exporter.Prelude.Lists.{all_below, all_below_sound}
use scm_metrics_exporter.Prelude.Int.{ℤ, pos, negsuc}
use scm_metrics_exporter.Prelude.Text.{nth}
use scm_metrics_exporter.Prelude.Text.Decimal.{
  format_digits, format_nat, format_int, parse_digits, parse_int, signed,
}
use scm_metrics_exporter.Prelude.Text.Durations.{leading_int, is_digit}

abbrev pub digit : ℕ → Char
digit n = nth "0123456789" n nul

digits_checked : all_below 10 (λ i. code (digit i) == 48 + i) ≡ true
unfolding all_below
digits_checked = refl

pub code-digit : (n : ℕ) → n < 10 → code (digit n) ≡ 48 + n
code-digit n h =
    ground (arith, all_below_sound 10 (λ i. code (digit i) == 48 + i) n digits_checked h)

-- A power of ten.
abbrev pub tens : ℕ → ℕ
tens zero = 1
tens (suc k) = 10 * tens k

-- The last digit of a number is read after the others.
parse_digits-last :
    (some_digit : Bool) (n : ℕ) (rest : String)
    → parse_digits some_digit (n / 10) (digit (n % 10) ∷ rest) ≡ parse_digits true n rest
unfolding parse_digits
parse_digits-last b n rest =
    let c = code-digit (n % 10) (omega arith) in
    let value : n / 10 * 10 + (48 + n % 10 - 48) ≡ n = omega arith in rw (c, value) (ground arith)

-- A number below ten, or below a smaller power of ten after its last digit.
fits-last : (fuel n : ℕ) → n < tens (suc (suc fuel)) → n / 10 < tens (suc fuel)
fits-last fuel n h = omega (arith, h)

pub parse_digits-format :
    (fuel n : ℕ) (some_digit : Bool) (rest : String)
    → n < tens (suc fuel)
    → parse_digits some_digit 0 (format_digits (suc fuel) n rest) ≡ parse_digits true n rest
unfolding format_digits
parse_digits-format zero n b rest h =
    let first : n / 10 ≡ 0 = omega arith in
    let short : ltb n 10 ≡ true = ground arith in
    rw short
      (ap (λ k. parse_digits b k (digit (n % 10) ∷ rest)) (sym first) ∙ parse_digits-last b n rest)
parse_digits-format (suc fuel) n b rest h = elim (Bool-cases (ltb n 10)) [
  | inl short ↦
      let first : n / 10 ≡ 0 = ground arith in
      rw short (
        ap (λ k. parse_digits b k (digit (n % 10) ∷ rest)) (sym first) ∙ parse_digits-last b n rest)
  | inr long ↦ rw long (
      parse_digits-format fuel (n / 10) b (digit (n % 10) ∷ rest) (fits-last fuel n h)
      ∙ parse_digits-last true n rest)
]

abbrev pub starts_with_digit : String → Bool
starts_with_digit [] = false
starts_with_digit (c ∷ s) = is_digit c

digit-IsDigit : (n : ℕ) → n < 10 → is_digit (digit n) ≡ true
digit-IsDigit n h = rw (code-digit n h) (ground arith)

-- A printed number starts with a digit.
pub format_digits-head :
    (fuel n : ℕ) (rest : String) → starts_with_digit (format_digits (suc fuel) n rest) ≡ true
unfolding format_digits
format_digits-head zero n rest = elim (Bool-cases (ltb n 10)) [
  | inl short ↦ rw short (digit-IsDigit (n % 10) (omega arith))
  | inr long ↦ rw long (digit-IsDigit (n % 10) (omega arith))
]
format_digits-head (suc fuel) n rest = elim (Bool-cases (ltb n 10)) [
  | inl short ↦ rw short (digit-IsDigit (n % 10) (omega arith))
  | inr long ↦ rw long (format_digits-head fuel (n / 10) (digit (n % 10) ∷ rest))
]

-- The number is read back in front of what no digit starts.
leading_int-last :
    (seen : Bool) (n : ℕ) (rest : String)
    → n ≤ 2 ^ 63
    → leading_int seen (n / 10) (digit (n % 10) ∷ rest) ≡ leading_int true n rest
unfolding leading_int
leading_int-last b n rest h =
    let c = code-digit (n % 10) (omega arith) in
    let value : n / 10 * 10 + (48 + n % 10 - 48) ≡ n = omega arith in rw (c, value) (ground arith)

pub leading_int-format :
    (fuel n : ℕ) (seen : Bool) (rest : String)
    → n < tens (suc fuel)
    → n ≤ 2 ^ 63
    → leading_int seen 0 (format_digits (suc fuel) n rest) ≡ leading_int true n rest
unfolding format_digits
leading_int-format zero n b rest h fits =
    let first : n / 10 ≡ 0 = omega arith in
    let short : ltb n 10 ≡ true = ground arith in
    rw short (
      ap (λ k. leading_int b k (digit (n % 10) ∷ rest)) (sym first)
      ∙ leading_int-last b n rest fits)
leading_int-format (suc fuel) n b rest h fits = elim (Bool-cases (ltb n 10)) [
  | inl short ↦
      let first : n / 10 ≡ 0 = ground arith in
      rw short (
        ap (λ k. leading_int b k (digit (n % 10) ∷ rest)) (sym first)
        ∙ leading_int-last b n rest fits)
  | inr long ↦ rw long (
      leading_int-format fuel (n / 10) b (digit (n % 10) ∷ rest) (fits-last fuel n h) (omega arith)
      ∙ leading_int-last true n rest fits)
]

-- The integers of sixty-four bits.
abbrev pub IsInt64 : ℤ → Type 0
IsInt64 (pos n) = n < 2 ^ 63
IsInt64 (negsuc n) = n < 2 ^ 63

parse_int-unsigned :
    (s : String) → starts_with_digit s ≡ true → parse_int s ≡ signed false (parse_digits false 0 s)
unfolding parse_int
parse_int-unsigned [] h = cc
parse_int-unsigned (c ∷ s) h =
    let minus : (code c == 45) ≡ false = ground arith in
    let plus : (code c == 43) ≡ false = ground arith in rw (minus, plus) refl

pub nat-head : (n : ℕ) → starts_with_digit (format_nat n) ≡ true
unfolding format_nat
nat-head n = format_digits-head 19 n ""

parse_digits-nat : (n : ℕ) → n ≤ 2 ^ 63 → parse_digits false 0 (format_nat n) ≡ some n
unfolding format_nat parse_digits
parse_digits-nat n h = parse_digits-format 19 n false "" (omega arith)

parse_int-minus :
    (s : String) → parse_int (String.◌++◌ "-" s) ≡ signed true (parse_digits false 0 s)
unfolding parse_int
parse_int-minus s = ap parse_int (cons-append "-" "" s ∙ ap (λ t. "-" ∷ t) (nil-append s))

-- Every int64 is read back from its decimal print.
pub parse_int-format_int : (x : ℤ) → IsInt64 x → parse_int (format_int x) ≡ some x
unfolding format_int parse_int
parse_int-format_int (pos n) h =
    parse_int-unsigned (format_nat n) (nat-head n)
    ∙ rw (parse_digits-nat n (omega arith)) (ground arith)
parse_int-format_int (negsuc n) h =
    let next : n + 1 ≡ suc n = omega arith in
    parse_int-minus (format_nat (n + 1))
    ∙ ap (λ o. signed true o) (parse_digits-nat (n + 1) (omega arith) ∙ ap some next)
    ∙ ground arith
