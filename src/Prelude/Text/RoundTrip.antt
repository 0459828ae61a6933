-- ===== src/Prelude/Text/RoundTrip.antt =====
-- A duration that time.Duration.String prints is read back by time.ParseDuration.
use Prim.Native.Nat.{ℕ, zero, suc, ◌+◌, ◌-◌, ◌*◌, ◌^◌, ◌/◌, ◌%◌, ◌≤◌, ◌<◌}
use Prim.Native.Char.{Char, code}
use Prim.Native.String
use Prim.Native.String.{String, [], ◌∷◌}
use mathlib.Core.Path.{◌≡◌, refl, ap, ◌∙◌}
use mathlib.Core.Bool.{true, false, ◌||◌}
use mathlib.Core.Logic.{inl, inr}
use mathlib.Core.Option.{none, some}
use native.Mathlib.Omega.{arith}
use native.Mathlib.Nat.{div-eq_of_eq-mul_left}
use text.Mathlib.TextLemmas.{cons-append, nil-append, append_assoc}
use scm_metrics_exporter.Prelude.Tests.{
  ltb, if◌then◌else◌, ◌==◌, nat_eq, string_eq, Bool-cases, eq_of_beq,
}
use scm_metrics_exporter.Prelude.Int.{pos}
use scm_metrics_exporter.Prelude.Text.Decimal.{format_digits, format_nat}
use scm_metrics_exporter.Prelude.Text.Duration.{fraction}
use scm_metrics_exporter.Prelude.Text.Durations.{
  leading_int, unit_name, unit_nanos, scaled, one_unit, sum_units, runes, unsigned, parse_duration,
  is_digit,
}
use scm_metrics_exporter.Prelude.Text.Digits.{
  digit, tens, starts_with_digit, format_digits-head, leading_int-format,
}
use scm_metrics_exporter.Prelude.Text.Fractions.{ends_number, fraction-Read, fraction-no_digit}

format_digits-append :
    (fuel n : ℕ) (s t : String)
    → String.◌++◌ (format_digits fuel n s) t ≡ format_digits fuel n (String.◌++◌ s t)
unfolding format_digits
format_digits-append zero n s t = refl
format_digits-append (suc fuel) n s t = elim (Bool-cases (ltb n 10)) [
  | inl short ↦ rw short (cons-append (digit (n % 10)) s t)
  | inr long ↦ rw long (
      format_digits-append fuel (n / 10) (digit (n % 10) ∷ s) t
      ∙ ap (format_digits fuel (n / 10)) (cons-append (digit (n % 10)) s t))
]

pub format_nat-append : (n : ℕ) (t : String) → String.◌++◌ (format_nat n) t ≡ format_digits 20 n t
unfolding format_nat
format_nat-append n t = format_digits-append 20 n "" t ∙ ap (format_digits 20 n) (nil-append t)

leading_int-stop :
    (n : ℕ) (t : String) → starts_with_digit t ≡ false → leading_int true n t ≡ some (n, t, true)
unfolding leading_int
leading_int-stop n [] h = refl
leading_int-stop n (c ∷ t) h = rw h refl

number-read :
    (n : ℕ) (t : String)
    → n ≤ 2 ^ 63
    → starts_with_digit t ≡ false
    → leading_int false 0 (format_digits 20 n t) ≡ some (n, t, true)
number-read n t fits stops =
    leading_int-format 19 n false t (omega arith) fits ∙ leading_int-stop n t stops

scaled-fits :
    (v f scale unit w : ℕ)
    → ltb (2 ^ 63 / unit) v ≡ false
    → f * unit / suc scale ≡ w
    → v * unit + w ≤ 2 ^ 63
    → scaled v f (suc scale) unit ≡ some (v * unit + w)
scaled-fits v f scale unit w small e fits = rw (small, e) (ground arith)

-- A number with its fraction and unit is read back.
pub one_unit-read :
    (v k w unit total : ℕ) (t name rest : String)
    → ltb (2 ^ 63 / unit) v ≡ false
    → v ≤ 2 ^ 63
    → w < tens k
    → w < 1_000_000_000
    → ends_number t ≡ true
    → unit_name t ≡ (name, rest)
    → unit_nanos name ≡ some unit
    → ((f scale : ℕ) → f * tens k ≡ w * suc scale → f * unit / suc scale ≡ total)
    → v * unit + total ≤ 2 ^ 63
    → one_unit (format_digits 20 v (String.◌++◌ (fraction k w "") t))
      ≡ some (v * unit + total, rest)
unfolding one_unit
one_unit-read v k w unit total t name rest small fits below nine stops named valued value whole =
    let (f, scale, decimals, read, exact) = fraction-Read k w t below nine stops in
    rw
      (
        number-read v (String.◌++◌ (fraction k w "") t) fits (fraction-no_digit k w t stops),
        read,
        named,
        valued,
        scaled-fits v f scale unit total small (value f scale exact) whole,
      )
      refl

-- A sum that fits does not wrap around.
sum-fits :
    (fuel n : ℕ) (rest : String)
    → n ≤ 2 ^ 63
    → (if ltb (2 ^ 63) (n % 2 ^ 64) then none else sum_units fuel (n % 2 ^ 64) rest)
      ≡ sum_units fuel n rest
sum-fits fuel n rest fits =
    let whole : n % 2 ^ 64 ≡ n = omega arith in
    let small : ltb (2 ^ 63) n ≡ false = ground arith in
    ap (λ m. if ltb (2 ^ 63) m then none else sum_units fuel m rest) whole ∙ rw small refl

-- One step of the sum of a duration's numbers.
pub sum_units-step :
    (fuel d v : ℕ) (s rest : String)
    → one_unit s ≡ some (v, rest)
    → starts_with_digit s ≡ true
    → d + v ≤ 2 ^ 63
    → 1 ≤ fuel
    → sum_units fuel d s ≡ sum_units (fuel - 1) (d + v) rest
unfolding sum_units
sum_units-step fuel d v [] rest read starts fits enough = cc
sum_units-step zero d v (c ∷ s) rest read starts fits enough = absurd (omega (arith, enough))
sum_units-step (suc fuel) d v (c ∷ s) rest read starts fits enough =
    let less : fuel ≡ suc fuel - 1 = omega arith in
    rw read (sum-fits fuel (d + v) rest fits ∙ ap (λ f. sum_units f (d + v) rest) less)

sum_units-end : (fuel d : ℕ) → sum_units fuel d "" ≡ some d
unfolding sum_units
sum_units-end zero d = refl
sum_units-end (suc fuel) d = refl

-- A printed number has a rune at least.
pub runes-format :
    (fuel n : ℕ) (rest : String) → suc (runes rest) ≤ runes (format_digits (suc fuel) n rest)
unfolding format_digits
runes-format zero n rest = elim (Bool-cases (ltb n 10)) [
  | inl short ↦ rw short (omega arith)
  | inr long ↦ rw long (omega arith)
]
runes-format (suc fuel) n rest = elim (Bool-cases (ltb n 10)) [
  | inl short ↦ rw short (omega arith)
  | inr long ↦ rw long (omega (arith, runes-format fuel (n / 10) (digit (n % 10) ∷ rest)))
]

not_short : (s t : String) → 2 ≤ runes s → runes t ≤ 1 → (s == t) ≡ false
not_short s t long short = elim (Bool-cases (s == t)) [
  | inr e ↦ e
  | inl e ↦ absurd (omega (arith, long, short, ap runes (eq_of_beq s t e)))
]

unsigned-sum : (s : String) → 2 ≤ runes s → unsigned s ≡ sum_units (runes s) 0 s
unfolding unsigned
unsigned-sum s long =
    rw (not_short s "0" long (omega arith), not_short s "" long (omega arith)) refl

pub parse_duration-sum :
    (s : String) (n : ℕ)
    → starts_with_digit s ≡ true
    → 2 ≤ runes s
    → n < 2 ^ 63
    → sum_units (runes s) 0 s ≡ some n
    → parse_duration s ≡ some (pos n)
unfolding parse_duration
parse_duration-sum [] n starts long fits sum = cc
parse_duration-sum (c ∷ s) n starts long fits sum =
    let minus : (code c == 45) ≡ false = ground arith in
    let plus : (code c == 43) ≡ false = ground arith in
    let value : unsigned (c ∷ s) ≡ some n = unsigned-sum (c ∷ s) long ∙ sum in
    rw (minus, plus, value) (ground arith)

runes-append : (s t : String) → runes t ≤ runes (String.◌++◌ s t)
runes-append [] t = omega (arith, ap runes (nil-append t))
runes-append (c ∷ s) t = omega (arith, runes-append s t, ap runes (cons-append c s t))

pub text-part :
    (v k w : ℕ) (t : String)
    → String.◌++◌ (String.◌++◌ (format_nat v) (fraction k w "")) t
      ≡ format_digits 20 v (String.◌++◌ (fraction k w "") t)
text-part v k w t =
    append_assoc (format_nat v) (fraction k w "") t
    ∙ format_nat-append v (String.◌++◌ (fraction k w "") t)

-- The name of a unit that is ten to the `k` nanoseconds.
abbrev pub IsUnit : String → ℕ → Type 0
IsUnit name k =
    (ends_number name ≡ true)
    × (unit_name name ≡ (name, ""))
    × (unit_nanos name ≡ some (tens k))
    × (1 ≤ runes name)

pub exact : (k w f scale : ℕ) → f * tens k ≡ w * suc scale → f * tens k / suc scale ≡ w
exact k w f scale e = div-eq_of_eq-mul_left (omega arith) e

-- The last number of a duration, with its fraction.
pub last-read :
    (v k w fuel d : ℕ) (name : String)
    → IsUnit name k
    → ltb (2 ^ 63 / tens k) v ≡ false
    → v ≤ 2 ^ 63
    → w < tens k
    → w < 1_000_000_000
    → d + (v * tens k + w) ≤ 2 ^ 63
    → 1 ≤ fuel
    → sum_units fuel d (format_digits 20 v (String.◌++◌ (fraction k w "") name))
      ≡ some (d + (v * tens k + w))
last-read v k w fuel d name (ends, named, valued, _) small fits below nine whole enough =
    sum_units-step fuel d (v * tens k + w) _ ""
      (one_unit-read v k w (tens k) w name name "" small fits below nine ends named valued
        (exact k w) (omega arith))
      (format_digits-head 19 v (String.◌++◌ (fraction k w "") name)) whole enough
    ∙ sum_units-end (fuel - 1) (d + (v * tens k + w))

-- A duration of one number is read back.
pub single :
    (v k w : ℕ) (name : String)
    → IsUnit name k
    → ltb (2 ^ 63 / tens k) v ≡ false
    → v ≤ 2 ^ 63
    → w < tens k
    → w < 1_000_000_000
    → v * tens k + w < 2 ^ 63
    → parse_duration (String.◌++◌ (String.◌++◌ (format_nat v) (fraction k w "")) name)
      ≡ some (pos (v * tens k + w))
single v k w name unit small fits below nine whole =
    let t = String.◌++◌ (fraction k w "") name in
    let s = format_digits 20 v t in
    let long : 2 ≤ runes s =
      omega (arith, runes-format 19 v t, runes-append (fraction k w "") name, unit.3) in
    let added : 0 + (v * tens k + w) ≡ v * tens k + w = omega arith in
    ap parse_duration (text-part v k w name)
    ∙ parse_duration-sum s (v * tens k + w) (format_digits-head 19 v t) long whole (
        last-read v k w (runes s) 0 name unit small fits below nine (omega arith) (omega arith)
        ∙ ap some added)

pub unit_name-mark :
    (c : Char) (rest : String)
    → (is_digit c || code c == 46) ≡ false
    → starts_with_digit rest ≡ true
    → unit_name (c ∷ rest) ≡ (c ∷ "", rest)
unfolding unit_name
unit_name-mark c [] mark starts = cc
unit_name-mark c (d ∷ rest) mark starts =
    let next : (is_digit d || code d == 46) ≡ true = ground arith in rw (mark, next) refl
