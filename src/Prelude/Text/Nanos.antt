-- ===== src/Prelude/Text/Nanos.antt =====
-- Every duration that time.Duration.String prints is read back by time.ParseDuration; those below
-- one second have a unit of their own.
use Prim.Native.Nat.{ℕ, ◌+◌, ◌*◌, ◌^◌, ◌/◌, ◌%◌, ◌≤◌, ◌<◌}
use Prim.Native.String.{String}
use mathlib.Core.Path.{◌≡◌, refl, ap, ◌∙◌}
use mathlib.Core.Bool.{false}
use mathlib.Core.Logic.{inl, inr}
use mathlib.Core.Option.{some}
use native.Mathlib.Omega.{arith}
use scm_metrics_exporter.Prelude.Tests.{ltb, ◌==◌, nat_eq, string_eq, Bool-cases}
use scm_metrics_exporter.Prelude.Int.{pos}
use scm_metrics_exporter.Prelude.Text.Duration.{with_unit, format_nanos, format_duration}
use scm_metrics_exporter.Prelude.Text.Durations.{unit_name, parse_duration}
use scm_metrics_exporter.Prelude.Text.Digits.{tens}
use scm_metrics_exporter.Prelude.Text.RoundTrip.{IsUnit, single}
use scm_metrics_exporter.Prelude.Text.Clock.{clock-read}

nanos-IsUnit : IsUnit "ns" 0
unfolding unit_name
nanos-IsUnit = (refl, refl, refl, omega arith)

micros-IsUnit : IsUnit "µs" 3
unfolding unit_name
micros-IsUnit = (refl, refl, refl, omega arith)

millis-IsUnit : IsUnit "ms" 6
unfolding unit_name
millis-IsUnit = (refl, refl, refl, omega arith)

zero-read : parse_duration "0s" ≡ some (pos 0)
unfolding parse_duration
zero-read = refl

-- A duration of less than a second, in the unit that is ten to the `k` nanoseconds.
fraction-read-back :
    (u k : ℕ) (name : String)
    → IsUnit name k
    → tens k ≤ 1_000_000_000
    → u < 1_000_000_000
    → ltb (2 ^ 63 / tens k) (u / tens k) ≡ false
    → u / tens k ≤ 2 ^ 63
    → u % tens k < tens k
    → u / tens k * tens k + u % tens k ≡ u
    → parse_duration (with_unit u (tens k) k name) ≡ some (pos u)
fraction-read-back u k name unit small below fits few rest value =
    single (u / tens k) k (u % tens k) name unit fits few rest (omega (arith, rest))
      (omega (arith, value))
    ∙ ap (λ n. some (pos n)) value

format_nanos-read : (n : ℕ) → n < 2 ^ 63 → parse_duration (format_nanos n) ≡ some (pos n)
unfolding format_nanos
format_nanos-read n fits = elim (Bool-cases (n == 0)) [
  | inl e ↦ let nothing : 0 ≡ n = ground arith in rw e (zero-read ∙ ap (λ k. some (pos k)) nothing)
  | inr e ↦ rw e (elim (Bool-cases (ltb n 1000)) [
    | inl nanos ↦ rw nanos (
        fraction-read-back n 0 "ns" nanos-IsUnit (omega arith) (ground arith) (ground arith)
          (omega arith) (omega arith) (omega arith))
    | inr long ↦ rw long (elim (Bool-cases (ltb n 1_000_000)) [
      | inl micros ↦ rw micros (
          fraction-read-back n 3 "µs" micros-IsUnit (omega arith) (ground arith) (ground arith)
            (omega arith) (omega arith) (omega arith))
      | inr longer ↦ rw longer (elim (Bool-cases (ltb n 1_000_000_000)) [
        | inl millis ↦ rw millis (
            fraction-read-back n 6 "ms" millis-IsUnit (omega arith) (ground arith) (ground arith)
              (omega arith) (omega arith) (omega arith))
        | inr whole ↦ rw whole (clock-read n fits)
      ])
    ])
  ])
]

-- Every duration that is not negative is read back from its print.
pub parse_duration-format_duration :
    (n : ℕ) → n < 2 ^ 63 → parse_duration (format_duration (pos n)) ≡ some (pos n)
unfolding format_duration
parse_duration-format_duration n fits = format_nanos-read n fits
