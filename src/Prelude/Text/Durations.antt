-- ===== src/Prelude/Text/Durations.antt =====
-- `time.ParseDuration`, with exact fractions where the package rounds through float64.
use Prim.Native.Nat.{ℕ, zero, suc, ◌+◌, ◌-◌, ◌*◌, ◌^◌, ◌/◌, ◌%◌}
use Prim.Native.Char.{Char, code}
use Prim.Native.String.{String, [], ◌∷◌}
use mathlib.Core.Bool.{Bool, true, false, ◌&&◌, ◌||◌}
use mathlib.Core.Option.{Option, none, some}
use scm_metrics_exporter.Prelude.Tests.{ltb, leb, if◌then◌else◌, ◌==◌, nat_eq, string_eq}
use scm_metrics_exporter.Prelude.Int.{ℤ, pos, negsuc}

infixl 5 ◌>>=◌
abbrev pub ◌>>=◌ {ℓ κ} : {A : Type ℓ} {B : Type κ} → Option A → (A → Option B) → Option B
some a >>= f = f a
none >>= f = none

abbrev pub is_digit : Char → Bool
is_digit c = leb 48 (code c) && leb (code c) 57

-- The number in front of a text, what follows it, and whether it has a digit. No number above
-- 2 ^ 63 is read.
unfoldable pub leading_int : Bool → ℕ → String → Option (ℕ × String × Bool)
leading_int seen x [] = some (x, [], seen)
leading_int seen x (c ∷ s) =
    let y = x * 10 + (code c - 48) in
    let rest = leading_int true y s in
    if is_digit c
    then (if ltb (2 ^ 63 / 10) x then none else if ltb (2 ^ 63) y then none else rest)
    else some (x, c ∷ s, seen)

-- The digits of a fraction as a number over a power of ten; those that do not fit are skipped.
unfoldable pub leading_fraction : (seen overflow : Bool) → ℕ → ℕ → String → ℕ × ℕ × String × Bool
leading_fraction seen overflow x scale [] = (x, scale, [], seen)
leading_fraction seen overflow x scale (c ∷ s) =
    let y = x * 10 + (code c - 48) in
    let full = overflow || (ltb ((2 ^ 63 - 1) / 10) x || ltb (2 ^ 63) y) in
    let skipped = leading_fraction true true x scale s in
    let more = leading_fraction true false y (scale * 10) s in
    if is_digit c then (if full then skipped else more) else (x, scale, c ∷ s, seen)

-- The fraction after a point, if there is a point.
abbrev pub fraction_part : String → ℕ × ℕ × String × Bool
fraction_part [] = (0, 1, [], false)
fraction_part (c ∷ s) =
    let read = leading_fraction false false 0 1 s in
    if code c == 46 then read else (0, 1, c ∷ s, false)

-- What stands in front of the next digit or point, and the rest.
unfoldable pub unit_name : String → String × String
unit_name [] = ([], [])
unit_name (c ∷ s) =
    let (name, rest) = unit_name s in
    if is_digit c || code c == 46 then ([], c ∷ s) else (c ∷ name, rest)

abbrev pub unit_nanos : String → Option ℕ
unit_nanos s =
    if s == "ns"
    then some 1
    else if s == "us" || (s == "µs" || s == "μs")
    then some 1_000
    else if s == "ms"
    then some 1_000_000
    else if s == "s"
    then some 1_000_000_000
    else if s == "m"
    then some 60_000_000_000
    else if s == "h"
    then some 3_600_000_000_000
    else none

-- A number with its fraction in a unit.
abbrev pub scaled : ℕ → ℕ → ℕ → ℕ → Option ℕ
scaled v f zero unit = none
scaled v f (suc scale) unit =
    let w = v * unit + f * unit / suc scale in
    if ltb (2 ^ 63 / unit) v then none else if ltb (2 ^ 63) w then none else some w

-- One number with its unit, and the rest. It starts with a digit or a point.
unfoldable pub one_unit : String → Option (ℕ × String)
unfolding leading_int leading_fraction unit_name
one_unit s = do
  (v, after, digits) ← leading_int false 0 s
  let (f, scale, after, decimals) = fraction_part after
  let (name, after) = unit_name after
  unit ← if digits || decimals then unit_nanos name else none
  total ← scaled v f scale unit
  some (total, after)

-- The sum wraps around at 2 ^ 64, as the package's does. A unit has a rune at least, so that one
-- step for each rune is enough.
unfoldable pub sum_units : ℕ → ℕ → String → Option ℕ
unfolding one_unit
sum_units fuel d [] = some d
sum_units zero d (c ∷ s) = none
sum_units (suc fuel) d (c ∷ s) = do
  (v, rest) ← one_unit (c ∷ s)
  if ltb (2 ^ 63) ((d + v) % 2 ^ 64) then none else sum_units fuel ((d + v) % 2 ^ 64) rest

abbrev pub runes : String → ℕ
runes [] = 0
runes (c ∷ s) = suc (runes s)

unfoldable pub unsigned : String → Option ℕ
unfolding sum_units
unsigned s = if s == "0" then some 0 else if s == "" then none else sum_units (runes s) 0 s

abbrev negated : ℕ → ℤ
negated zero = pos 0
negated (suc n) = negsuc n

abbrev pub positive : Option ℕ → Option ℤ
positive none = none
positive (some d) = if ltb (2 ^ 63 - 1) d then none else some (pos d)

abbrev negative : Option ℕ → Option ℤ
negative none = none
negative (some d) = some (negated d)

unfoldable pub parse_duration : String → Option ℤ
unfolding unsigned
parse_duration [] = none
parse_duration (c ∷ s) =
    if code c == 45
    then negative (unsigned s)
    else if code c == 43
    then positive (unsigned s)
    else positive (unsigned (c ∷ s))
