-- ===== src/Prelude/Text/Clock.antt =====
-- The hours, minutes and seconds that time.Duration.String prints, read back by time.ParseDuration.
use Prim.Native.Nat.{ℕ, suc, ◌+◌, ◌-◌, ◌*◌, ◌^◌, ◌/◌, ◌%◌, ◌≤◌, ◌<◌}
use Prim.Native.Char.{Char, code}
use Prim.Native.String
use Prim.Native.String.{String, [], ◌∷◌}
use mathlib.Core.Path.{◌≡◌, refl, sym, ap, ◌∙◌}
use mathlib.Core.Bool.{true, false, ◌||◌}
use mathlib.Core.Logic.{inl, inr}
use mathlib.Core.Option.{some}
use native.Mathlib.Omega.{arith}
use text.Mathlib.TextLemmas.{cons-append, nil-append}
use scm_metrics_exporter.Prelude.Tests.{ltb, ◌==◌, nat_eq, string_eq, Bool-cases}
use scm_metrics_exporter.Prelude.Int.{pos}
use scm_metrics_exporter.Prelude.Text.Decimal.{format_digits, format_nat}
use scm_metrics_exporter.Prelude.Text.Duration.{fraction, clock}
use scm_metrics_exporter.Prelude.Text.Durations.{
  unit_name, unit_nanos, one_unit, sum_units, runes, parse_duration, is_digit,
}
use scm_metrics_exporter.Prelude.Text.Digits.{tens, starts_with_digit, format_digits-head}
use scm_metrics_exporter.Prelude.Text.Fractions.{ends_number}
use scm_metrics_exporter.Prelude.Text.RoundTrip.{
  one_unit-read, sum_units-step, runes-format, parse_duration-sum, text-part, IsUnit, last-read,
  single, unit_name-mark, format_nat-append,
}

-- The numbers in front of a text with their unit; `tail` is what follows.
abbrev seconds_text : ℕ → ℕ → String
seconds_text s f = format_digits 20 s (String.◌++◌ (fraction 9 f "") "s")

abbrev marked : ℕ → Char → String → String
marked v c rest = format_digits 20 v (c ∷ rest)

pub seconds-IsUnit : IsUnit "s" 9
unfolding unit_name
seconds-IsUnit = (refl, refl, refl, omega arith)

no_part : (unit f scale : ℕ) → f * tens 0 ≡ 0 * suc scale → f * unit / suc scale ≡ 0
no_part unit f scale e = let nothing : f ≡ 0 = omega (arith, e) in rw nothing (omega arith)

-- A whole number in front of a unit of one letter.
marked-read :
    (v unit : ℕ) (c : Char) (rest : String)
    → (is_digit c || code c == 46) ≡ false
    → unit_nanos (c ∷ "") ≡ some unit
    → starts_with_digit rest ≡ true
    → ltb (2 ^ 63 / unit) v ≡ false
    → v ≤ 2 ^ 63
    → v * unit ≤ 2 ^ 63
    → one_unit (marked v c rest) ≡ some (v * unit, rest)
unfolding fraction
marked-read v unit c rest mark valued starts small fits whole =
    let added : v * unit + 0 ≡ v * unit = omega arith in
    let ends : ends_number (c ∷ rest) ≡ true = rw mark refl in
    ap (λ t. one_unit (format_digits 20 v t)) (sym (nil-append (c ∷ rest)))
    ∙ one_unit-read v 0 0 unit 0 (c ∷ rest) (c ∷ "") rest small fits (omega arith) (omega arith)
        ends (unit_name-mark c rest mark starts) valued (no_part unit) (omega (arith, whole, added))
    ∙ ap (λ n. some (n, rest)) added

marked-text :
    (v : ℕ) (c : Char) (rest : String)
    → String.◌++◌ (format_nat v) (String.◌++◌ (c ∷ "") rest) ≡ marked v c rest
marked-text v c rest =
    format_nat-append v (String.◌++◌ (c ∷ "") rest)
    ∙ ap (format_digits 20 v) (cons-append c "" rest ∙ ap (λ t. c ∷ t) (nil-append rest))

marked-sum :
    (v unit d fuel : ℕ) (c : Char) (rest : String)
    → (is_digit c || code c == 46) ≡ false
    → unit_nanos (c ∷ "") ≡ some unit
    → starts_with_digit rest ≡ true
    → ltb (2 ^ 63 / unit) v ≡ false
    → v ≤ 2 ^ 63
    → d + v * unit ≤ 2 ^ 63
    → 1 ≤ fuel
    → sum_units fuel d (marked v c rest) ≡ sum_units (fuel - 1) (d + v * unit) rest
marked-sum v unit d fuel c rest mark valued starts small fits whole enough =
    sum_units-step fuel d (v * unit) (marked v c rest) rest
      (marked-read v unit c rest mark valued starts small fits (omega (arith, whole)))
      (format_digits-head 19 v (c ∷ rest)) whole enough

-- The whole of a duration of a second or more.
module _ (h m s f : ℕ)
    (whole : h * 3_600_000_000_000 + m * 60_000_000_000 + (s * 1_000_000_000 + f) < 2 ^ 63)
    (below : f < 1_000_000_000) where
  abbrev S : String
  S = seconds_text s f

  seconds-sum :
      (fuel d : ℕ)
      → d ≤ h * 3_600_000_000_000 + m * 60_000_000_000
      → 1 ≤ fuel
      → sum_units fuel d S ≡ some (d + (s * 1_000_000_000 + f))
  seconds-sum fuel d small enough =
      last-read s 9 f fuel d "s" seconds-IsUnit (ground arith) (omega arith) (omega arith) below
        (omega arith) enough

  minutes-sum :
      (fuel d : ℕ)
      → d ≤ h * 3_600_000_000_000
      → 2 ≤ fuel
      → sum_units fuel d (marked m "m" S) ≡ some (d + m * 60_000_000_000 + (s * 1_000_000_000 + f))
  minutes-sum fuel d small enough =
      marked-sum m 60_000_000_000 d fuel "m" S refl refl
        (format_digits-head 19 s (String.◌++◌ (fraction 9 f "") "s")) (ground arith) (omega arith)
        (omega arith) (omega arith)
      ∙ seconds-sum (fuel - 1) (d + m * 60_000_000_000) (omega arith) (omega arith)

  hours-sum :
      (fuel : ℕ)
      → 3 ≤ fuel
      → sum_units fuel 0 (marked h "h" (marked m "m" S))
        ≡ some (0 + h * 3_600_000_000_000 + m * 60_000_000_000 + (s * 1_000_000_000 + f))
  hours-sum fuel enough =
      marked-sum h 3_600_000_000_000 0 fuel "h" (marked m "m" S) refl refl
        (format_digits-head 19 m ("m" ∷ S)) (ground arith) (omega arith) (omega arith) (omega arith)
      ∙ minutes-sum (fuel - 1) (0 + h * 3_600_000_000_000) (omega arith) (omega arith)

  short-read :
      s * 1_000_000_000 + f < 2 ^ 63 → parse_duration S ≡ some (pos (s * 1_000_000_000 + f))
  short-read fits =
      ap parse_duration (sym (text-part s 9 f "s"))
      ∙ single s 9 f "s" seconds-IsUnit (ground arith) (omega arith) (omega arith) below fits

  medium-read :
      h ≡ 0
      → parse_duration (marked m "m" S) ≡ some (pos (m * 60_000_000_000 + (s * 1_000_000_000 + f)))
  medium-read no_hours =
      let text = marked m "m" S in
      let long : 3 ≤ runes text = omega (
        arith,
        runes-format 19 m ("m" ∷ S),
        runes-format 19 s (String.◌++◌ (fraction 9 f "") "s"),
      ) in
      let value : 0 + m * 60_000_000_000 + (s * 1_000_000_000 + f)
          ≡ m * 60_000_000_000 + (s * 1_000_000_000 + f) =
        omega arith in
      parse_duration-sum text (m * 60_000_000_000 + (s * 1_000_000_000 + f))
        (format_digits-head 19 m ("m" ∷ S)) (omega (arith, long)) (omega arith)
        (minutes-sum (runes text) 0 (omega arith) (omega (arith, long)) ∙ ap some value)

  long-read :
      parse_duration (marked h "h" (marked m "m" S))
      ≡ some (pos (h * 3_600_000_000_000 + m * 60_000_000_000 + (s * 1_000_000_000 + f)))
  long-read =
      let text = marked h "h" (marked m "m" S) in
      let long : 3 ≤ runes text =
        omega (arith, runes-format 19 h ("h" ∷ marked m "m" S), runes-format 19 m ("m" ∷ S)) in
      let value : 0 + h * 3_600_000_000_000 + m * 60_000_000_000 + (s * 1_000_000_000 + f)
          ≡ h * 3_600_000_000_000 + m * 60_000_000_000 + (s * 1_000_000_000 + f) =
        omega arith in
      parse_duration-sum text (h * 3_600_000_000_000 + m * 60_000_000_000 + (s * 1_000_000_000 + f))
        (format_digits-head 19 h ("h" ∷ marked m "m" S)) (omega (arith, long)) whole
        (hours-sum (runes text) long ∙ ap some value)

seconds-text :
    (s f : ℕ) → String.◌++◌ (String.◌++◌ (format_nat s) (fraction 9 f "")) "s" ≡ seconds_text s f
seconds-text s f = text-part s 9 f "s"

minutes-text :
    (m s f : ℕ)
    → String.◌++◌
        (format_nat m)
        (String.◌++◌ "m" (String.◌++◌ (String.◌++◌ (format_nat s) (fraction 9 f "")) "s"))
      ≡ marked m "m" (seconds_text s f)
minutes-text m s f =
    ap (λ t. String.◌++◌ (format_nat m) (String.◌++◌ "m" t)) (seconds-text s f)
    ∙ marked-text m "m" (seconds_text s f)

pub clock-read : (u : ℕ) → u < 2 ^ 63 → parse_duration (clock u) ≡ some (pos u)
clock-read u fits =
    let w = u / 1_000_000_000 in
    let f = u % 1_000_000_000 in
    let parts : w / 3600 * 3_600_000_000_000
          + w / 60 % 60 * 60_000_000_000
          + (w % 60 * 1_000_000_000 + f)
        ≡ u =
      omega arith in
    let whole : w / 3600 * 3_600_000_000_000
          + w / 60 % 60 * 60_000_000_000
          + (w % 60 * 1_000_000_000 + f)
        < 2 ^ 63 =
      omega arith in
    elim (Bool-cases (w / 60 == 0)) [
      | inl e ↦
          let value : w % 60 * 1_000_000_000 + f ≡ u = ground arith in
          rw e (
            ap parse_duration (seconds-text (w % 60) f)
            ∙ short-read (w / 3600) (w / 60 % 60) (w % 60) f whole (omega arith) (omega arith)
            ∙ ap (λ n. some (pos n)) value)
      | inr e ↦ rw e (elim (Bool-cases (w / 3600 == 0)) [
        | inl z ↦
            let value : w / 60 % 60 * 60_000_000_000 + (w % 60 * 1_000_000_000 + f) ≡ u =
              ground arith in
            rw z (
              ap parse_duration (minutes-text (w / 60 % 60) (w % 60) f)
              ∙ medium-read (w / 3600) (w / 60 % 60) (w % 60) f whole (omega arith) (ground arith)
              ∙ ap (λ n. some (pos n)) value)
        | inr z ↦ rw z (
            ap (λ t. parse_duration (String.◌++◌ (format_nat (w / 3600)) (String.◌++◌ "h" t)))
              (minutes-text (w / 60 % 60) (w % 60) f)
            ∙ ap parse_duration
                (marked-text (w / 3600) "h" (marked (w / 60 % 60) "m" (seconds_text (w % 60) f)))
            ∙ long-read (w / 3600) (w / 60 % 60) (w % 60) f whole (omega arith)
            ∙ ap (λ n. some (pos n)) parts)
      ])
    ]
