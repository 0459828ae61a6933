-- ===== src/Prelude/Text/Fractions.antt =====
-- The fractions that time.Duration.String prints, read back by time.ParseDuration.
use Prim.Native.Nat.{ℕ, zero, suc, ◌+◌, ◌-◌, ◌*◌, ◌/◌, ◌%◌, ◌≤◌, ◌<◌}
use Prim.Native.Char.{Char, code}
use Prim.Native.String
use Prim.Native.String.{String, [], ◌∷◌}
use mathlib.Core.Path.{◌≡◌, refl, ap, ◌∙◌}
use mathlib.Core.Bool.{Bool, true, false, not, ◌||◌}
use mathlib.Core.Logic.{inl, inr}
use native.Mathlib.Omega.{arith}
use text.Mathlib.TextLemmas.{cons-append, nil-append}
use scm_metrics_exporter.Prelude.Tests.{◌==◌, nat_eq, Bool-cases}
use scm_metrics_exporter.Prelude.Text.Duration.{fraction}
use scm_metrics_exporter.Prelude.Text.Durations.{leading_fraction, fraction_part, is_digit}
use scm_metrics_exporter.Prelude.Text.Digits.{digit, code-digit, tens, starts_with_digit}

-- The last `k` digits of a number, in front of what follows them.
abbrev pub pad : ℕ → ℕ → String → String
pad zero v s = s
pad (suc k) v s = pad k (v / 10) (digit (v % 10) ∷ s)

fraction-pad :
    (k v : ℕ) (c : Char) (s : String) → fraction k v (c ∷ s) ≡ String.◌++◌ "." (pad k v (c ∷ s))
unfolding fraction
fraction-pad zero v c s = refl
fraction-pad (suc k) v c s = fraction-pad k (v / 10) (digit (v % 10)) (c ∷ s)

pad-append : (k v : ℕ) (s t : String) → String.◌++◌ (pad k v s) t ≡ pad k v (String.◌++◌ s t)
pad-append zero v s t = refl
pad-append (suc k) v s t =
    pad-append k (v / 10) (digit (v % 10) ∷ s) t
    ∙ ap (pad k (v / 10)) (cons-append (digit (v % 10)) s t)

leading_fraction-last :
    (seen : Bool) (v scale : ℕ) (t : String)
    → v < 1_000_000_000
    → leading_fraction seen false (v / 10) scale (digit (v % 10) ∷ t)
      ≡ leading_fraction true false v (scale * 10) t
unfolding leading_fraction
leading_fraction-last b v scale t h =
    let c = code-digit (v % 10) (omega arith) in
    let value : v / 10 * 10 + (48 + v % 10 - 48) ≡ v = omega arith in rw (c, value) (ground arith)

leading_fraction-pad :
    (k v : ℕ) (seen : Bool) (t : String)
    → v < tens (suc k)
    → v < 1_000_000_000
    → leading_fraction seen false 0 1 (pad (suc k) v t)
      ≡ leading_fraction true false v (tens (suc k)) t
leading_fraction-pad zero v b t h fits =
    let first : 0 ≡ v / 10 = omega arith in
    ap (λ x. leading_fraction b false x 1 (digit (v % 10) ∷ t)) first
    ∙ leading_fraction-last b v 1 t fits
leading_fraction-pad (suc k) v b t h fits =
    let scale : tens (suc k) * 10 ≡ tens (suc (suc k)) = omega arith in
    leading_fraction-pad k (v / 10) b (digit (v % 10) ∷ t) (omega (arith, h)) (omega arith)
    ∙ leading_fraction-last true v (tens (suc k)) t fits
    ∙ ap (λ x. leading_fraction true false v x t) scale

leading_fraction-stop :
    (v scale : ℕ) (t : String)
    → starts_with_digit t ≡ false
    → leading_fraction true false v scale t ≡ (v, scale, t, true)
unfolding leading_fraction
leading_fraction-stop v scale [] h = refl
leading_fraction-stop v scale (c ∷ t) h = rw h refl

-- What follows a number starts with neither a digit nor a point.
abbrev pub ends_number : String → Bool
ends_number [] = true
ends_number (c ∷ s) = not (is_digit c || code c == 46)

-- A fraction is read back, as a number over a power of ten.
abbrev pub Read : ℕ → ℕ → String → Type 0
Read k v t =
    (f : ℕ) × (scale : ℕ) × (decimals : Bool) × (fraction_part (String.◌++◌ (fraction k v "") t)
      ≡ (f, suc scale, t, decimals))
    × (f * tens k ≡ v * suc scale)

fraction_part-none : (t : String) → ends_number t ≡ true → fraction_part t ≡ (0, 1, t, false)
fraction_part-none [] h = refl
fraction_part-none (c ∷ t) h =
    let no_point : (code c == 46) ≡ false = ground arith in rw no_point refl

pub ends_number-digit : (t : String) → ends_number t ≡ true → starts_with_digit t ≡ false
ends_number-digit [] h = refl
ends_number-digit (c ∷ t) h = ground arith

-- A fraction that is not zero.
fraction-point :
    (k v : ℕ) (t : String)
    → String.◌++◌ (fraction k (v / 10) (digit (v % 10) ∷ "")) t ≡ "." ∷ pad (suc k) v t
fraction-point k v t =
    ap (λ s. String.◌++◌ s t) (fraction-pad k (v / 10) (digit (v % 10)) "")
    ∙ ap (λ s. String.◌++◌ s t)
        (cons-append "." "" (pad (suc k) v "") ∙ ap (λ s. "." ∷ s) (nil-append (pad (suc k) v "")))
    ∙ cons-append "." (pad (suc k) v "") t
    ∙ ap (λ s. "." ∷ s) (pad-append (suc k) v "" t ∙ ap (pad (suc k) v) (nil-append t))

tens-positive : (k : ℕ) → 1 ≤ tens k
tens-positive zero = omega arith
tens-positive (suc k) = omega (arith, tens-positive k)

ten_times : (f p q s v : ℕ) → f * p ≡ q * s → v ≡ 10 * q → f * (10 * p) ≡ v * s
ten_times f p q s v h e = rw e (omega (arith, h))

pub fraction-Read :
    (k v : ℕ) (t : String) → v < tens k → v < 1_000_000_000 → ends_number t ≡ true → Read k v t
unfolding fraction
fraction-Read zero v t h fits stops =
    (0, 0, false, ap fraction_part (nil-append t) ∙ fraction_part-none t stops, omega arith)
fraction-Read (suc k) v t h fits stops = elim (Bool-cases (v % 10 == 0)) [
  | inl e ↦ rw e (
      let (f, scale, decimals, read, value) =
        fraction-Read k (v / 10) t (omega (arith, h)) (omega arith) stops in
      (f, scale, decimals, read, ten_times f (tens k) (v / 10) (suc scale) v value (ground arith)))
  | inr e ↦ rw e (
      let scale : tens (suc k) ≡ suc (tens (suc k) - 1) = omega (arith, tens-positive k) in
      (
        v,
        tens (suc k) - 1,
        true,
        ap fraction_part (fraction-point k v t)
            ∙ leading_fraction-pad k v false t h fits
            ∙ leading_fraction-stop v (tens (suc k)) t (ends_number-digit t stops)
            ∙ ap (λ n. (v, n, t, true)) scale,
        ap (λ n. v * n) scale,
      ))
]

-- A fraction starts with no digit.
pub fraction-no_digit :
    (k v : ℕ) (t : String)
    → ends_number t ≡ true
    → starts_with_digit (String.◌++◌ (fraction k v "") t) ≡ false
unfolding fraction
fraction-no_digit zero v t stops = ap starts_with_digit (nil-append t) ∙ ends_number-digit t stops
fraction-no_digit (suc k) v t stops = elim (Bool-cases (v % 10 == 0)) [
  | inl e ↦ rw e (fraction-no_digit k (v / 10) t stops)
  | inr e ↦ rw e (ap starts_with_digit (fraction-point k v t))
]
