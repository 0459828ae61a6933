-- ===== src/Prelude/Text.antt =====
-- Go's strings: lower case, trimming, splitting and joining, over code points (package strings).
-- Texts are valid UTF-8. What the Unicode tables of Go say outside ASCII is the argument `Unicode`.
pub mod Trim
pub mod Split
pub mod Decimal
pub mod Duration
pub mod Durations
pub mod Url
pub mod Digits
pub mod Fractions
pub mod RoundTrip
pub mod Clock
pub mod Nanos
pub mod Steps
use Prim.Native.Nat.{ℕ, zero, suc, ◌+◌, ◌-◌, ◌≤◌, ◌<◌}
use Prim.Native.Char.{Char, code, nul}
use Prim.Native.String.{String, [], ◌∷◌}
use mathlib.Core.Path.{◌≡◌, refl, sym, ◌∙◌}
use mathlib.Core.Bool.{Bool, true, false, not, ◌&&◌, ◌||◌}
use mathlib.Core.Logic.{inl, inr}
use native.Mathlib.Omega.{arith}
use scm_metrics_exporter.Prelude.Tests.{ltb, leb, if◌then◌else◌, ◌==◌, nat_eq, Bool-cases, lt→ltb}
use scm_metrics_exporter.Prelude.Lists.{all_below, all_below_sound}

-- `unicode.ToLower`, `unicode.IsSpace` and one rune for each `unicode.SimpleFold` orbit (its
-- lower-case ASCII letter, where it has one), read at the runes outside ASCII alone.
pub record Unicode : Type 0 where
  pub lower : Char → Char
  pub space : Char → Bool
  pub fold : Char → Char

abbrev pub is_upper : ℕ → Bool
is_upper n = leb 65 n && leb n 90

abbrev pub nth : String → ℕ → Char → Char
nth [] i d = d
nth (c ∷ s) zero d = c
nth (c ∷ s) (suc i) d = nth s i d

abbrev letters : String
letters = "abcdefghijklmnopqrstuvwxyz"

-- The lower-case letter for an upper-case one; any other rune stays.
unfoldable pub ascii_lower : Char → Char
ascii_lower c = if is_upper (code c) then nth letters (code c - 65) nul else c

-- The runes that Go counts as white space below 128.
abbrev ascii_space : ℕ → Bool
ascii_space n = (leb 9 n && leb n 13) || n == 32

-- A lower-case letter is ASCII, is not upper case and is no space.
abbrev IsLetter : Char → Type 0
IsLetter c = (code c < 128) × (is_upper (code c) ≡ false) × (ascii_space (code c) ≡ false)

letters_checked :
    all_below 26 (λ i.
      let n = code (nth letters i nul) in (ltb n 128 && not (is_upper n)) && not (ascii_space n))
    ≡ true
unfolding all_below
letters_checked = refl

nth-IsLetter : (i : ℕ) → i < 26 → IsLetter (nth letters i nul)
nth-IsLetter i h = ground (
  arith,
  all_below_sound 26
      (λ i.
        let n = code (nth letters i nul) in (ltb n 128 && not (is_upper n)) && not (ascii_space n))
      i letters_checked h,
)

-- Lower case leaves ASCII in ASCII, with nothing in upper case.
pub ascii_lower_cases :
    (c : Char)
    → code c < 128
    → (code (ascii_lower c) < 128) × (is_upper (code (ascii_lower c)) ≡ false)
unfolding ascii_lower
ascii_lower_cases c h = elim (Bool-cases (is_upper (code c))) [
  | inl up ↦ let p = nth-IsLetter (code c - 65) (ground arith) in rw up (p.0, p.1)
  | inr down ↦ rw down (h, down)
]

pub ascii_lower_id : (c : Char) → is_upper (code c) ≡ false → ascii_lower c ≡ c
unfolding ascii_lower
ascii_lower_id c h = rw h

pub ascii_lower-space : (c : Char) → ascii_space (code (ascii_lower c)) ≡ ascii_space (code c)
unfolding ascii_lower
ascii_lower-space c = elim (Bool-cases (is_upper (code c))) [
  | inl up ↦
      let p = nth-IsLetter (code c - 65) (ground arith) in rw up (p.2 ∙ sym (not_space (code c) up))
  | inr down ↦ rw down
]
  where
    not_space : (n : ℕ) → is_upper n ≡ true → ascii_space n ≡ false
    not_space n h = ground arith

module _ ⦃u : Unicode⦄ where
  unfoldable pub lower_rune : Char → Char
  unfolding ascii_lower
  lower_rune c = if ltb (code c) 128 then ascii_lower c else u.lower c

  unfoldable pub is_space : Char → Bool
  is_space c = if ltb (code c) 128 then ascii_space (code c) else u.space c

  -- Two runes that differ in case alone have one fold.
  unfoldable pub fold_rune : Char → Char
  unfolding ascii_lower
  fold_rune c = if ltb (code c) 128 then ascii_lower c else u.fold c

  -- `strings.ToLower`
  unfoldable pub to_lower : String → String
  to_lower [] = []
  to_lower (c ∷ s) = lower_rune c ∷ to_lower s

  -- `strings.EqualFold`
  unfoldable pub equal_fold : String → String → Bool
  equal_fold [] [] = true
  equal_fold [] (_ ∷ _) = false
  equal_fold (_ ∷ _) [] = false
  equal_fold (c ∷ s) (d ∷ t) = code (fold_rune c) == code (fold_rune d) && equal_fold s t

  -- What the program relies on outside ASCII: a lower-case rune is its own lower case, and a rune
  -- is white space exactly if its lower case is.
  pub record IsCaseTable : Type 0 where
    pub lower_lower : (c : Char) → 128 ≤ code c → lower_rune (u.lower c) ≡ u.lower c
    pub lower_space : (c : Char) → 128 ≤ code c → is_space (u.lower c) ≡ u.space c

  pub lower_rune_idem : IsCaseTable → (c : Char) → lower_rune (lower_rune c) ≡ lower_rune c
  lower_rune_idem t c = elim (Bool-cases (ltb (code c) 128)) [
    | inl low ↦
        let p = ascii_lower_cases c (ground arith) in
        let e : lower_rune c ≡ ascii_lower c = unfold lower_rune in rw low in
        rw e (unfold lower_rune in rw (lt→ltb _ _ p.0) (ascii_lower_id (ascii_lower c) p.1))
    | inr high ↦
        let e : lower_rune c ≡ u.lower c = unfold lower_rune in rw high in
        rw e (t.lower_lower c (ground arith))
  ]

  pub is_space-lower_rune : IsCaseTable → (c : Char) → is_space (lower_rune c) ≡ is_space c
  is_space-lower_rune t c = elim (Bool-cases (ltb (code c) 128)) [
    | inl low ↦
        let p = ascii_lower_cases c (ground arith) in
        let e : lower_rune c ≡ ascii_lower c = unfold lower_rune in rw low in
        rw e (unfold is_space in rw (lt→ltb _ _ p.0, low) (ascii_lower-space c))
    | inr high ↦
        let e : lower_rune c ≡ u.lower c = unfold lower_rune in rw high in
        let f : is_space c ≡ u.space c = unfold is_space in rw high in
        rw (e, f) (t.lower_space c (ground arith))
  ]

-- No rune outside ASCII is a letter or white space. It stands in for the tables in tests.
abbrev pub plain : Unicode
plain = record { lower = λ c. c; space = λ _. false; fold = λ c. c }

pub plain-IsCaseTable : IsCaseTable ⦃u = plain⦄
plain-IsCaseTable = record {
  lower_lower = λ c h. unfold lower_rune in ground arith;
  lower_space = λ c h. unfold is_space in ground arith;
}
