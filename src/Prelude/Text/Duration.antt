-- ===== src/Prelude/Text/Duration.antt =====
-- `time.Duration.String`.
use Prim.Native.Nat.{ℕ, zero, suc, ◌+◌, ◌/◌, ◌%◌}
use Prim.Native.Char.{nul}
use Prim.Native.String
use Prim.Native.String.{String, [], ◌∷◌}
use scm_metrics_exporter.Prelude.Tests.{ltb, if◌then◌else◌, ◌==◌, nat_eq}
use scm_metrics_exporter.Prelude.Int.{ℤ, pos, negsuc}
use scm_metrics_exporter.Prelude.Text.{nth}
use scm_metrics_exporter.Prelude.Text.Decimal.{format_nat}

-- A decimal fraction without its trailing zeros.
unfoldable pub fraction : ℕ → ℕ → String → String
fraction zero v [] = ""
fraction zero v (c ∷ s) = String.◌++◌ "." (c ∷ s)
fraction (suc digits) v [] =
    let more = fraction digits (v / 10) (nth "0123456789" (v % 10) nul ∷ []) in
    let none = fraction digits (v / 10) [] in if v % 10 == 0 then none else more
fraction (suc digits) v (c ∷ s) = fraction digits (v / 10) (nth "0123456789" (v % 10) nul ∷ (c ∷ s))

abbrev pub with_unit : ℕ → ℕ → ℕ → String → String
with_unit u unit digits name =
    String.◌++◌ (String.◌++◌ (format_nat (u / unit)) (fraction digits (u % unit) "")) name

abbrev pub clock : ℕ → String
clock u =
    let w = u / 1_000_000_000 in
    let seconds =
      String.◌++◌ (String.◌++◌ (format_nat (w % 60)) (fraction 9 (u % 1_000_000_000) "")) "s" in
    let minutes = String.◌++◌ (format_nat (w / 60 % 60)) (String.◌++◌ "m" seconds) in
    if w / 60 == 0
    then seconds
    else if w / 3600 == 0
    then minutes
    else String.◌++◌ (format_nat (w / 3600)) (String.◌++◌ "h" minutes)

unfoldable pub format_nanos : ℕ → String
unfolding fraction format_nat
format_nanos u =
    if u == 0
    then "0s"
    else if ltb u 1000
    then with_unit u 1 0 "ns"
    else if ltb u 1_000_000
    then with_unit u 1000 3 "µs"
    else if ltb u 1_000_000_000
    then with_unit u 1_000_000 6 "ms"
    else clock u

unfoldable pub format_duration : ℤ → String
unfolding format_nanos
format_duration (pos n) = format_nanos n
format_duration (negsuc n) = String.◌++◌ "-" (format_nanos (n + 1))
