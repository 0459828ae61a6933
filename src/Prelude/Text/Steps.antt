-- ===== src/Prelude/Text/Steps.antt =====
-- One step of time.ParseDuration for each rune is enough: more steps change no answer.
use Prim.Native.Nat.{ℕ, zero, suc, ◌+◌, ◌*◌, ◌-◌, ◌^◌, ◌/◌, ◌%◌, ◌≤◌, ◌<◌}
use Prim.Native.Char.{code}
use Prim.Native.String.{String, [], ◌∷◌}
use mathlib.Core.Path.{◌≡◌, refl, ap}
use mathlib.Core.Bool.{Bool, true, false, ◌||◌}
use mathlib.Core.Logic.{inl, inr}
use mathlib.Core.Option.{Option, none, some}
use native.Mathlib.Omega.{arith}
use scm_metrics_exporter.Prelude.Tests.{ltb, ◌==◌, nat_eq, if◌then◌else◌, Bool-cases}
use scm_metrics_exporter.Prelude.Text.Durations.{
  is_digit, leading_int, leading_fraction, fraction_part, unit_name, unit_nanos, scaled, one_unit,
  ◌>>=◌, sum_units, runes,
}

-- What a reader leaves has at most `n` runes, or fewer.
abbrev Within : ℕ → Option (ℕ × String × Bool) → Type 0
Within n none = Unit
Within n (some (v, rest, b)) = runes rest ≤ n

abbrev Shorter : ℕ → Option (ℕ × String) → Type 0
Shorter n none = Unit
Shorter n (some (v, rest)) = runes rest < n

Within-if :
    (n : ℕ) (b : Bool) (x y : Option (ℕ × String × Bool))
    → Within n x
    → Within n y
    → Within n (if b then x else y)
Within-if n true x y h k = h
Within-if n false x y h k = k

Within-grows : (n m : ℕ) → n ≤ m → (o : Option (ℕ × String × Bool)) → Within n o → Within m o
Within-grows n m l none h = tt
Within-grows n m l (some (v, rest, b)) h = omega (arith, l, h)

leading_int-Within : (seen : Bool) (x : ℕ) (s : String) → Within (runes s) (leading_int seen x s)
unfolding leading_int
leading_int-Within seen x [] = omega arith
leading_int-Within seen x (c ∷ s) =
    let n = runes (c ∷ s) in
    let y = x * 10 + (code c - 48) in
    let rest = Within-grows (runes s) n (omega arith) _ (leading_int-Within true y s) in
    Within-if n (is_digit c) _ _
      (Within-if n (ltb (2 ^ 63 / 10) x) none _ tt (Within-if n (ltb (2 ^ 63) y) none _ tt rest))
      (omega arith)

leading_fraction-runes :
    (seen overflow : Bool) (x scale : ℕ) (s : String)
    → runes (leading_fraction seen overflow x scale s).2 ≤ runes s
unfolding leading_fraction
leading_fraction-runes seen overflow x scale [] = omega arith
leading_fraction-runes seen overflow x scale (c ∷ s) =
    let y = x * 10 + (code c - 48) in
    let skipped = leading_fraction-runes true true x scale s in
    let more = leading_fraction-runes true false y (scale * 10) s in ground arith

fraction_part-runes : (s : String) → runes (fraction_part s).2 ≤ runes s
fraction_part-runes [] = omega arith
fraction_part-runes (c ∷ s) =
    let read = leading_fraction-runes false false 0 1 s in
    elim (Bool-cases (code c == 46)) [
      | inl e ↦ rw e (omega (arith, read))
      | inr e ↦ rw e (omega arith)
    ]

unit_name-runes : (s : String) → runes (unit_name s).0 + runes (unit_name s).1 ≡ runes s
unfolding unit_name
unit_name-runes [] = refl
unit_name-runes (c ∷ s) =
    let rest = unit_name-runes s in
    elim (Bool-cases (is_digit c || code c == 46)) [
      | inl e ↦ rw e (omega arith)
      | inr e ↦ rw e (omega (arith, rest))
    ]

-- A number in its unit, if there is one, and what follows.
abbrev valued : (v f scale : ℕ) → Option ℕ → String → Option (ℕ × String)
valued v f scale found rest = do unit ← found; total ← scaled v f scale unit; some (total, rest)

valued-Shorter :
    (v f scale : ℕ) (found : Option ℕ) (rest : String) (n : ℕ)
    → runes rest < n
    → Shorter n (valued v f scale found rest)
valued-Shorter v f scale none rest n h = tt
valued-Shorter v f scale (some unit) rest n h = go (scaled v f scale unit)
  where
    go : (o : Option ℕ) → Shorter n (o >>= λ total. some (total, rest))
    go none = tt
    go (some total) = h

named-Shorter :
    (v f scale : ℕ) (digits : Bool) (name rest : String) (n : ℕ)
    → runes name + runes rest ≤ n
    → Shorter n (valued v f scale (if digits then unit_nanos name else none) rest)
named-Shorter v f scale true [] rest n h = tt
named-Shorter v f scale false [] rest n h = tt
named-Shorter v f scale digits (c ∷ s) rest n h =
    valued-Shorter v f scale (if digits then unit_nanos (c ∷ s) else none) rest n (omega (arith, h))

-- A unit has a rune at least.
one_unit-Shorter : (s : String) → Shorter (runes s) (one_unit s)
unfolding one_unit
one_unit-Shorter s = go (leading_int false 0 s) (leading_int-Within false 0 s)
  where
    go :
        (o : Option (ℕ × String × Bool))
        → Within (runes s) o
        → Shorter (runes s) (
            o >>= λ x.
            let (f, scale, after, decimals) = fraction_part x.1 in
            let (name, rest) = unit_name after in
            valued x.0 f scale (if x.2 || decimals then unit_nanos name else none) rest)
    go none h = tt
    go (some (v, t, digits)) h =
        let (f, scale, after, decimals) = fraction_part t in
        let (name, rest) = unit_name after in
        let shorter = fraction_part-runes t in
        let split = unit_name-runes after in
        named-Shorter v f scale (digits || decimals) name rest (runes s)
          (omega (arith, h, shorter, split))

bind-same :
    (n : ℕ) (o : Option (ℕ × String)) (f g : ℕ × String → Option ℕ)
    → Shorter n o
    → ((v : ℕ) (rest : String) → runes rest < n → f (v, rest) ≡ g (v, rest))
    → (o >>= f) ≡ (o >>= g)
bind-same n none f g h same = refl
bind-same n (some (v, rest)) f g h same = same v rest h

-- With a step for each rune or more, the sum is the same.
pub sum_units-enough :
    (n m d : ℕ) (s : String) → runes s ≤ n → runes s ≤ m → sum_units n d s ≡ sum_units m d s
unfolding sum_units
sum_units-enough n m d [] h k = refl
sum_units-enough zero m d (c ∷ s) h k = absurd (omega (arith, h))
sum_units-enough (suc n) zero d (c ∷ s) h k = absurd (omega (arith, k))
sum_units-enough (suc n) (suc m) d (c ∷ s) h k =
    bind-same (runes (c ∷ s)) (one_unit (c ∷ s)) _ _ (one_unit-Shorter (c ∷ s)) (λ v rest l.
      ap (λ r. if ltb (2 ^ 63) ((d + v) % 2 ^ 64) then none else r)
        (sum_units-enough n m ((d + v) % 2 ^ 64) rest (omega (arith, h, l)) (omega (arith, k, l))))
