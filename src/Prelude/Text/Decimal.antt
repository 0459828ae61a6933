-- ===== src/Prelude/Text/Decimal.antt =====
-- `strconv.FormatInt` and `strconv.ParseInt` in base ten, and `strconv.FormatBool`.
use Prim.Native.Nat.{ℕ, zero, suc, ◌+◌, ◌-◌, ◌*◌, ◌^◌, ◌/◌, ◌%◌}
use Prim.Native.Char.{nul, code}
use Prim.Native.String
use Prim.Native.String.{String, [], ◌∷◌}
use mathlib.Core.Bool.{Bool, true, false, ◌&&◌}
use mathlib.Core.Option.{Option, none, some}
use scm_metrics_exporter.Prelude.Tests.{ltb, leb, if◌then◌else◌, ◌==◌, nat_eq}
use scm_metrics_exporter.Prelude.Int.{ℤ, pos, negsuc}
use scm_metrics_exporter.Prelude.Text.{nth}

-- A number below 10 ^ fuel, in front of what follows it.
unfoldable pub format_digits : ℕ → ℕ → String → String
format_digits zero n rest = rest
format_digits (suc fuel) n rest =
    let text = nth "0123456789" (n % 10) nul ∷ rest in
    let more = format_digits fuel (n / 10) text in if ltb n 10 then text else more

-- Twenty digits are enough for every `int64`.
unfoldable pub format_nat : ℕ → String
unfolding format_digits
format_nat n = format_digits 20 n ""

unfoldable pub format_int : ℤ → String
unfolding format_nat
format_int (pos n) = format_nat n
format_int (negsuc n) = String.◌++◌ "-" (format_nat (n + 1))

abbrev pub format_bool : Bool → String
format_bool true = "true"
format_bool false = "false"

-- Digits in front of a value read so far, and whether there was a digit yet.
unfoldable pub parse_digits : Bool → ℕ → String → Option ℕ
parse_digits some_digit n [] = if some_digit then some n else none
parse_digits some_digit n (c ∷ s) =
    let rest = parse_digits true (n * 10 + (code c - 48)) s in
    if leb 48 (code c) && leb (code c) 57 then rest else none

abbrev pub signed : Bool → Option ℕ → Option ℤ
signed negative none = none
signed false (some n) = if ltb n (2 ^ 63) then some (pos n) else none
signed true (some zero) = some (pos 0)
signed true (some (suc n)) = if ltb n (2 ^ 63) then some (negsuc n) else none

-- `strconv.ParseInt(s, 10, 64)` and `strconv.Atoi`.
unfoldable pub parse_int : String → Option ℤ
unfolding parse_digits
parse_int [] = none
parse_int (c ∷ s) =
    if code c == 45
    then signed true (parse_digits false 0 s)
    else if code c == 43
    then signed false (parse_digits false 0 s)
    else signed false (parse_digits false 0 (c ∷ s))
