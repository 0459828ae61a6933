-- ===== src/Prelude/Text/Split.antt =====
-- `strings.Split` and `strings.Join` at a separator of one rune, and their round trip.
use Prim.Native.Char.{Char, code}
use Prim.Native.String
use Prim.Native.String.{String, [], ◌∷◌}
use mathlib.Core.Path.{◌≡◌, refl, sym, ap, ap₂, ◌∙◌}
use mathlib.Core.Bool.{false}
use mathlib.Core.Logic.{inl, inr}
use mathlib.Core.List.{List, [], ◌∷◌}
use text.Mathlib.TextEquality.{Char-path}
use text.Mathlib.TextLemmas.{nil-append, cons-append}
use scm_metrics_exporter.Prelude.Tests.{
  if◌then◌else◌, Bool-cases, eq_of_beq, beq_refl, ◌==◌, nat_eq,
}
use scm_metrics_exporter.Prelude.Lists.{All, is_empty}

-- Puts a rune in front of the first part.
abbrev push_front : Char → List String → List String
push_front c [] = (c ∷ []) ∷ []
push_front c (p ∷ ps) = (c ∷ p) ∷ ps

unfoldable pub split : Char → String → List String
split sep [] = "" ∷ []
split sep (c ∷ s) =
    let rest = split sep s in if code c == code sep then "" ∷ rest else push_front c rest

-- A non-empty list of parts, the first one apart.
unfoldable pub join_from : Char → String → List String → String
join_from sep p [] = p
join_from sep p (q ∷ ps) = String.◌++◌ p (sep ∷ join_from sep q ps)

unfoldable pub join : Char → List String → String
join sep [] = ""
join sep (p ∷ ps) = join_from sep p ps

-- A text without the separator.
abbrev pub Lacks : Char → String → Type 0
Lacks sep [] = Unit
Lacks sep (c ∷ s) = ((code c == code sep) ≡ false) × Lacks sep s

split-Lacks : (sep : Char) (s : String) → Lacks sep s → split sep s ≡ s ∷ []
unfolding split
split-Lacks sep [] h = refl
split-Lacks sep (c ∷ s) (n, h) = rw (n, split-Lacks sep s h)

split-append :
    (sep : Char) (p s : String)
    → Lacks sep p
    → split sep (String.◌++◌ p (sep ∷ s)) ≡ p ∷ split sep s
unfolding split
split-append sep [] s h = rw nil-append (rw (beq_refl (code sep)))
split-append sep (c ∷ p) s (n, h) = rw cons-append (rw (n, split-append sep p s h))

split-join_from :
    (sep : Char) (p : String) (ps : List String)
    → Lacks sep p
    → All (Lacks sep) ps
    → split sep (join_from sep p ps) ≡ p ∷ ps
unfolding join_from
split-join_from sep p [] h k = split-Lacks sep p h
split-join_from sep p (q ∷ ps) h (n, k) =
    split-append sep p (join_from sep q ps) h ∙ ap (◌∷◌ p) (split-join_from sep q ps n k)

-- Joining parts that hold no separator, and splitting again, gives the parts back.
pub split-join :
    (sep : Char) (p : String) (ps : List String)
    → Lacks sep p
    → All (Lacks sep) ps
    → split sep (join sep (p ∷ ps)) ≡ p ∷ ps
unfolding join
split-join = split-join_from

join_from-push_front :
    (sep c : Char) (p : String) (ps : List String)
    → join_from sep (c ∷ p) ps ≡ c ∷ join_from sep p ps
unfolding join_from
join_from-push_front sep c p [] = refl
join_from-push_front sep c p (q ∷ ps) = cons-append c p _

join-push_front :
    (sep c : Char) (ps : List String)
    → join sep (push_front c ps) ≡ (if is_empty ps then c ∷ [] else c ∷ join sep ps)
unfolding join
join-push_front sep c [] = unfold join_from in refl
join-push_front sep c (p ∷ ps) = join_from-push_front sep c p ps

split-ne-empty : (sep : Char) (s : String) → is_empty (split sep s) ≡ false
unfolding split
split-ne-empty sep [] = refl
split-ne-empty sep (c ∷ s) = elim (Bool-cases (code c == code sep)) [
  | inl e ↦ rw e
  | inr e ↦ rw e (front (split sep s))
]
  where
    front : (ps : List String) → is_empty (push_front c ps) ≡ false
    front [] = refl
    front (p ∷ ps) = refl

join-nil-front :
    (sep : Char) (ps : List String) → is_empty ps ≡ false → join sep ("" ∷ ps) ≡ sep ∷ join sep ps
unfolding join join_from
join-nil-front sep [] h = cc
join-nil-front sep (p ∷ ps) h = nil-append _

-- Joining what was split gives the text back, whatever it is.
pub join-split : (sep : Char) (s : String) → join sep (split sep s) ≡ s
unfolding split
join-split sep [] = unfold join join_from in refl
join-split sep (c ∷ s) = elim (Bool-cases (code c == code sep)) [
  | inl e ↦ rw e (
      join-nil-front sep (split sep s) (split-ne-empty sep s)
      ∙ ap₂ ◌∷◌ (sym (Char-path c sep (eq_of_beq _ _ e))) (join-split sep s))
  | inr e ↦ rw e (
      join-push_front sep c (split sep s)
      ∙ rw (split-ne-empty sep s) (ap (◌∷◌ c) (join-split sep s)))
]
