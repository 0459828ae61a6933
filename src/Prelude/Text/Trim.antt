-- ===== src/Prelude/Text/Trim.antt =====
-- `strings.TrimSpace`, and lower case of a trimmed text.
use Prim.Native.Char.{Char}
use Prim.Native.String.{String, [], ◌∷◌}
use mathlib.Core.Path.{◌≡◌, refl}
use mathlib.Core.Bool.{Bool, true, false}
use native.Mathlib.Omega.{arith}
use scm_metrics_exporter.Prelude.Tests.{if◌then◌else◌}
use scm_metrics_exporter.Prelude.Text.{
  Unicode, lower_rune, is_space, to_lower, IsCaseTable, lower_rune_idem, is_space-lower_rune,
}

-- Drops the head of a text that has nothing after it.
abbrev keep : Bool → Char → String → String
keep drop c (d ∷ r) = c ∷ (d ∷ r)
keep true c [] = []
keep false c [] = c ∷ []

module _ ⦃u : Unicode⦄ where
  unfoldable pub trim_left : String → String
  trim_left [] = []
  trim_left (c ∷ s) = let rest = trim_left s in if is_space c then rest else c ∷ s

  unfoldable pub trim_right : String → String
  trim_right [] = []
  trim_right (c ∷ s) = keep (is_space c) c (trim_right s)

  unfoldable pub trim_space : String → String
  trim_space s = trim_right (trim_left s)

  pub to_lower_idem : IsCaseTable → (s : String) → to_lower (to_lower s) ≡ to_lower s
  unfolding to_lower
  to_lower_idem t [] = refl
  to_lower_idem t (c ∷ s) = cc (lower_rune_idem t c, to_lower_idem t s)

  trim_left-to_lower : IsCaseTable → (s : String) → trim_left (to_lower s) ≡ to_lower (trim_left s)
  unfolding trim_left to_lower
  trim_left-to_lower t [] = refl
  trim_left-to_lower t (c ∷ s) = ground (arith, is_space-lower_rune t c, trim_left-to_lower t s)

  keep-to_lower :
      (b : Bool) (c : Char) (r : String)
      → keep b (lower_rune c) (to_lower r) ≡ to_lower (keep b c r)
  unfolding to_lower
  keep-to_lower true c [] = refl
  keep-to_lower false c [] = refl
  keep-to_lower b c (d ∷ r) = refl

  trim_right-to_lower :
      IsCaseTable → (s : String) → trim_right (to_lower s) ≡ to_lower (trim_right s)
  unfolding trim_right to_lower
  trim_right-to_lower t [] = refl
  trim_right-to_lower t (c ∷ s) =
      rw (is_space-lower_rune t c, trim_right-to_lower t s)
        (keep-to_lower (is_space c) c (trim_right s))

  -- Lower case and trimming can be done in either order.
  pub trim_space-to_lower :
      IsCaseTable → (s : String) → trim_space (to_lower s) ≡ to_lower (trim_space s)
  unfolding trim_space
  trim_space-to_lower t s = rw (trim_left-to_lower t s) (trim_right-to_lower t (trim_left s))

  trim_right-keep :
      (b : Bool) (c : Char) (r : String)
      → is_space c ≡ b
      → trim_right r ≡ r
      → trim_right (keep b c r) ≡ keep b c r
  unfolding trim_right
  trim_right-keep true c [] e h = refl
  trim_right-keep false c [] e h = rw e
  trim_right-keep b c (d ∷ r) e h = rw h

  trim_right_idem : (s : String) → trim_right (trim_right s) ≡ trim_right s
  unfolding trim_right
  trim_right_idem [] = refl
  trim_right_idem (c ∷ s) = trim_right-keep (is_space c) c (trim_right s) refl (trim_right_idem s)

  -- The head of a text is no white space.
  abbrev Starts : String → Type 0
  Starts [] = Unit
  Starts (c ∷ s) = is_space c ≡ false

  trim_left-Starts : (s : String) → Starts (trim_left s)
  unfolding trim_left
  trim_left-Starts [] = tt
  trim_left-Starts (c ∷ s) = ground (arith, trim_left-Starts s)

  trim_left_of_Starts : (s : String) → Starts s → trim_left s ≡ s
  unfolding trim_left
  trim_left_of_Starts [] h = refl
  trim_left_of_Starts (c ∷ s) h = rw h

  keep-Starts : (c : Char) (r : String) → is_space c ≡ false → Starts (keep false c r)
  keep-Starts c [] h = h
  keep-Starts c (d ∷ r) h = h

  trim_right-Starts : (s : String) → Starts s → Starts (trim_right s)
  unfolding trim_right
  trim_right-Starts [] h = tt
  trim_right-Starts (c ∷ s) h = rw h (keep-Starts c (trim_right s) h)

  -- A trimmed text has nothing left to trim.
  pub trim_space_idem : (s : String) → trim_space (trim_space s) ≡ trim_space s
  unfolding trim_space
  trim_space_idem s =
      rw (trim_left_of_Starts (trim_right (trim_left s)) (trim_right-Starts _ (trim_left-Starts s)))
        (trim_right_idem (trim_left s))
