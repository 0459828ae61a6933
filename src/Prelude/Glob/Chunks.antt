-- ===== src/Prelude/Glob/Chunks.antt =====
-- The fuel for a chunk of a pattern of `path.Match` is enough: more of it changes nothing.
use Prim.Native.Nat.{ℕ, zero, suc, ◌≤◌, ◌<◌}
use Prim.Native.Char.{Char}
use Prim.Native.String.{String, [], ◌∷◌}
use mathlib.Core.Path.{◌≡◌, refl, ap₂, subst, ◌∙◌}
use mathlib.Core.Bool.{Bool, true, false, not, ◌&&◌, ◌||◌}
use mathlib.Core.Logic.{inl, inr}
use mathlib.Core.Option.{Option, none, some}
use native.Mathlib.Omega.{arith}
use scm_metrics_exporter.Prelude.Tests.{nat_eq, if◌then◌else◌, Bool-cases}
use scm_metrics_exporter.Prelude.Glob.{
  is, is_blank, size, get_esc, get_high, unless_last, escaped_rune, with_high, low_and_high,
  one_range, closing, holds, range_round, ranges, Matched, rest_runes, negation, equal_rune,
  bad_rune, pick, after_escape, after_bracket, match_chunk,
}

-- What a reader of a bracket expression leaves is shorter than `n`.
abbrev Leaves : {A : Type 0} → ℕ → Option (A × String) → Type 0
Leaves n none = Unit
Leaves n (some (a, q)) = size q < n

Leaves-if :
    {A : Type 0} (n : ℕ) (b : Bool) (x y : Option (A × String))
    → Leaves n x
    → Leaves n y
    → Leaves n (if b then x else y)
Leaves-if n true x y h k = h
Leaves-if n false x y h k = k

unless_last-Leaves : (c : Char) (p : String) (n : ℕ) → size p < n → Leaves n (unless_last c p)
unless_last-Leaves c [] n h = tt
unless_last-Leaves c (d ∷ p) n h = h

escaped_rune-Leaves : (p : String) (n : ℕ) → size p ≤ n → Leaves n (escaped_rune p)
escaped_rune-Leaves [] n h = tt
escaped_rune-Leaves (d ∷ p) n h = unless_last-Leaves d p n (omega (arith, h))

get_esc-Leaves : (p : String) → Leaves (size p) (get_esc p)
unfolding get_esc
get_esc-Leaves [] = tt
get_esc-Leaves (c ∷ p) = Leaves-if (size (c ∷ p)) (is 45 c || is 93 c) none _ tt (
    Leaves-if (size (c ∷ p)) (is 92 c) (escaped_rune p) (unless_last c p)
      (escaped_rune-Leaves p (size (c ∷ p)) (omega arith))
      (unless_last-Leaves c p (size (c ∷ p)) (omega arith)))

get_high-Leaves : (lo : Char) (p : String) (n : ℕ) → size p < n → Leaves n (get_high lo p)
get_high-Leaves lo [] n h = tt
get_high-Leaves lo (c ∷ p) n h =
    Leaves-if n (is 45 c) (get_esc p) (some (lo, c ∷ p)) (weaker (get_esc p) (get_esc-Leaves p)) h
  where
    weaker : (o : Option (Char × String)) → Leaves (size p) o → Leaves n o
    weaker none k = tt
    weaker (some (a, q)) k = omega (arith, h, k)

-- Both ends of a range, and the rest.
abbrev Ranged : ℕ → Option (Char × Char × String) → Type 0
Ranged n none = Unit
Ranged n (some (lo, hi, q)) = size q < n

one_range-Ranged : (p : String) → Ranged (size p) (one_range p)
one_range-Ranged p = go (get_esc p) (get_esc-Leaves p)
  where
    high :
        (lo : Char) (o : Option (Char × String))
        → Leaves (size p) o
        → Ranged (size p) (with_high lo o)
    high lo none h = tt
    high lo (some (hi, q)) h = h

    go : (o : Option (Char × String)) → Leaves (size p) o → Ranged (size p) (low_and_high o)
    go none h = tt
    go (some (lo, q)) h = high lo (get_high lo q) (get_high-Leaves lo q (size p) h)

closing-Leaves : (b : Bool) (p : String) → (q : String) → closing b p ≡ some q → size q < size p
closing-Leaves b [] q e = cc
closing-Leaves b (c ∷ p) q e = elim (Bool-cases (is 93 c && b)) [
  | inl t ↦
      let same : p ≡ q = cc (rw t at e) in subst (λ s. size s < suc (size p)) same (omega arith)
  | inr t ↦ cc (rw t at e)
]

range_round-Leaves :
    (n : ℕ) (r : Option Char) (hit : Bool) (x : Option String)
    → ((q : String) → x ≡ some q → size q < n)
    → (o : Option (Char × Char × String)) → Ranged n o
    → (next : Bool → String → Option (Bool × String))
    → ((h : Bool) (q : String) → Leaves (size q) (next h q))
    → Leaves n (range_round r hit x o next)
range_round-Leaves n r hit (some q) f o h next later = f q refl
range_round-Leaves n r hit none f none h next later = tt
range_round-Leaves n r hit none f (some (lo, hi, q)) h next later =
    weaker (next (hit || holds lo hi r) q) (later (hit || holds lo hi r) q)
  where
    weaker : (o : Option (Bool × String)) → Leaves (size q) o → Leaves n o
    weaker none k = tt
    weaker (some (a, t)) k = omega (arith, h, k)

ranges-Leaves :
    (n : ℕ) (r : Option Char) (hit b : Bool) (p : String) → Leaves (size p) (ranges n r hit b p)
unfolding ranges
ranges-Leaves zero r hit b p = tt
ranges-Leaves (suc n) r hit b p =
    range_round-Leaves (size p) r hit (closing b p) (closing-Leaves b p) (one_range p)
      (one_range-Ranged p) (λ hit q. ranges n r hit true q) (λ hit q. ranges-Leaves n r hit true q)

range_round-same :
    (n : ℕ) (r : Option Char) (hit : Bool) (x : Option String) (o : Option (Char × Char × String))
    → Ranged n o
    → (f g : Bool → String → Option (Bool × String))
    → ((h : Bool) (q : String) → size q < n → f h q ≡ g h q)
    → range_round r hit x o f ≡ range_round r hit x o g
range_round-same n r hit (some q) o h f g same = refl
range_round-same n r hit none none h f g same = refl
range_round-same n r hit none (some (lo, hi, q)) h f g same = same _ q h

pub ranges-enough :
    (n m : ℕ) (r : Option Char) (hit b : Bool) (p : String)
    → size p < n
    → size p < m
    → ranges n r hit b p ≡ ranges m r hit b p
unfolding ranges
ranges-enough zero m r hit b p h k = absurd (omega (arith, h))
ranges-enough (suc n) zero r hit b p h k = absurd (omega (arith, k))
ranges-enough (suc n) (suc m) r hit b p h k =
    range_round-same (size p) r hit (closing b p) (one_range p) (one_range-Ranged p) _ _
      (λ hit q l. ranges-enough n m r hit true q (omega (arith, h, l)) (omega (arith, k, l)))

negation-size : (p : String) → size (negation p).1 ≤ size p
negation-size [] = omega arith
negation-size (c ∷ p) = elim (Bool-cases (is 94 c)) [
  | inl e ↦ rw e (omega arith)
  | inr e ↦ rw e (omega arith)
]

after_bracket-same :
    (n : ℕ) (o : Option (Bool × String)) (f g : Bool → String → Matched)
    → Leaves n o
    → ((h : Bool) (q : String) → size q < n → f h q ≡ g h q)
    → after_bracket o f ≡ after_bracket o g
after_bracket-same n none f g h same = refl
after_bracket-same n (some (hit, q)) f g h same = same hit q h

after_escape-same :
    (p : String) (f g : Char → String → Matched)
    → ((d : Char) (q : String) → size q < size p → f d q ≡ g d q)
    → after_escape p f ≡ after_escape p g
after_escape-same [] f g same = refl
after_escape-same (d ∷ q) f g same = same d q (omega arith)

pick-same :
    (c : Char) {a a' b b' d d' e e' : Matched}
    → a ≡ a'
    → b ≡ b'
    → d ≡ d'
    → e ≡ e'
    → pick c a b d e ≡ pick c a' b' d' e'
pick-same c {a} {a'} {b} {b'} {d} {d'} {e} {e'} p q r t =
    ap₂ (λ x y. pick c x y d e) p q ∙ ap₂ (λ x y. pick c a' b' x y) r t

-- With any fuel above the length of a chunk, the chunk matches the same.
pub match_chunk-enough :
    (n m : ℕ) (failed : Bool) (chunk s : String)
    → size chunk < n
    → size chunk < m
    → match_chunk n failed chunk s ≡ match_chunk m failed chunk s
unfolding match_chunk
match_chunk-enough zero m failed chunk s h k = absurd (omega (arith, h))
match_chunk-enough (suc n) zero failed chunk s h k = absurd (omega (arith, k))
match_chunk-enough (suc n) (suc m) failed [] s h k = refl
match_chunk-enough (suc n) (suc m) failed (c ∷ p) s h k =
    let later = λ (b : Bool) (q : String) (l : size q ≤ size p).
      match_chunk-enough n m b q (rest_runes s) (omega (arith, h, l)) (omega (arith, k, l)) in
    let q = (negation p).1 in
    let shorter = negation-size p in
    let same : size p ≤ size p = omega arith in
    let over = failed || is_blank s in
    pick-same c
      (after_bracket-same (size q) _ _ _ (ranges-Leaves (suc (size q)) _ false false q) (λ hit t l.
        later (over || (if (negation p).0 then hit else not hit)) t (omega (arith, shorter, l))))
      (later (over || bad_rune s) p same)
      (after_escape-same p (λ d t. match_chunk n (over || not (equal_rune d s)) t (rest_runes s))
        (λ d t. match_chunk m (over || not (equal_rune d s)) t (rest_runes s))
        (λ d t l. later (over || not (equal_rune d s)) t (omega (arith, l))))
      (later (over || not (equal_rune c s)) p same)
