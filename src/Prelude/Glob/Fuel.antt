-- ===== src/Prelude/Glob/Fuel.antt =====
-- The fuel of `path.Match` is enough: more of it changes no answer.
use Prim.Native.Nat.{ℕ, zero, suc, ◌≤◌, ◌<◌}
use Prim.Native.Char.{Char}
use Prim.Native.String.{String, [], ◌∷◌}
use mathlib.Core.Path.{◌≡◌, refl, ap, ap₂, fun_ext}
use mathlib.Core.Bool.{Bool, true, false}
use mathlib.Core.Logic.{inl, inr}
use native.Mathlib.Omega.{arith}
use scm_metrics_exporter.Prelude.Tests.{nat_eq, Bool-cases}
use scm_metrics_exporter.Prelude.Glob.{
  is, size, leading_stars, scan, read_on, chunk_at, check_rest, match_round, match_fuel, path_match,
}

leading_stars-size : (b : Bool) (p : String) → size (leading_stars b p).1 ≤ size p
unfolding leading_stars
leading_stars-size b [] = omega arith
leading_stars-size b (c ∷ p) = elim (Bool-cases (is 42 c)) [
  | inl e ↦ let rest = leading_stars-size true p in rw e (omega (arith, rest))
  | inr e ↦ rw e (omega arith)
]

scan-size : (escaped in_range : Bool) (p : String) → size (scan escaped in_range p).1 ≤ size p
unfolding scan
scan-size escaped in_range [] = omega arith
scan-size escaped in_range (c ∷ p) =
    let a = scan-size false in_range p in
    let b = scan-size true in_range p in
    let d = scan-size false true p in let e = scan-size false false p in ground arith

scan-shorter :
    (c : Char) (p : String) → is 42 c ≡ false → size (scan false false (c ∷ p)).1 < size (c ∷ p)
unfolding scan
scan-shorter c p e =
    let b = scan-size true false p in
    let d = scan-size false true p in let f = scan-size false false p in rw e (ground arith)

-- The rest of a pattern after its first chunk is shorter.
rest-size :
    (c : Char) (p : String)
    → size (scan false false (leading_stars false (c ∷ p)).1).1 < size (c ∷ p)
unfolding leading_stars
rest-size c p = elim (Bool-cases (is 42 c)) [
  | inl e ↦
      let a = scan-size false false (leading_stars true p).1 in
      let b = leading_stars-size true p in rw e (omega (arith, a, b))
  | inr e ↦ rw e (scan-shorter c p e)
]

check_rest-enough :
    (n m : ℕ) (p : String) → size p < n → size p < m → check_rest n p ≡ check_rest m p
unfolding check_rest
check_rest-enough zero m p h k = absurd (omega (arith, h))
check_rest-enough (suc n) zero p h k = absurd (omega (arith, k))
check_rest-enough (suc n) (suc m) [] h k = refl
check_rest-enough (suc n) (suc m) (c ∷ p) h k =
    let (chunk, rest) = scan false false (leading_stars false (c ∷ p)).1 in
    let shorter = rest-size c p in
    ap (read_on (chunk_at chunk ""))
      (check_rest-enough n m rest (omega (arith, h, shorter)) (omega (arith, k, shorter)))

match_fuel-enough :
    (n m : ℕ) (p name : String)
    → size p < n
    → size p < m
    → match_fuel n p name ≡ match_fuel m p name
unfolding match_fuel
match_fuel-enough zero m p name h k = absurd (omega (arith, h))
match_fuel-enough (suc n) zero p name h k = absurd (omega (arith, k))
match_fuel-enough (suc n) (suc m) [] name h k = refl
match_fuel-enough (suc n) (suc m) (c ∷ p) name h k =
    let (star, tail) = leading_stars false (c ∷ p) in
    let (chunk, rest) = scan false false tail in
    let shorter = rest-size c p in
    let h' : size rest < n = omega (arith, h, shorter) in
    let k' : size rest < m = omega (arith, k, shorter) in
    ap₂ (match_round star chunk rest name) (fun_ext λ t. match_fuel-enough n m rest t h' k')
      (check_rest-enough n m rest h' k')

-- With any fuel above the length of the pattern, the answer is that of path.Match.
pub path_match-enough :
    (fuel : ℕ) (pattern name : String)
    → size pattern < fuel
    → match_fuel fuel pattern name ≡ path_match pattern name
unfolding path_match
path_match-enough fuel pattern name h =
    match_fuel-enough fuel (suc (size pattern)) pattern name h (omega arith)
