-- ===== src/Prelude/Order.antt =====
-- The order of Go's strings (`<=`, strings.Compare): byte order, which for UTF-8 is the order of
-- the code points.
use Prim.Native.Char.{Char, code}
use Prim.Native.String.{String, [], ◌∷◌}
use mathlib.Core.Path.{◌≡◌, refl, ap₂}
use mathlib.Core.Bool.{Bool, true, false}
use native.Mathlib.Omega.{arith}
use text.Mathlib.TextEquality.{Char-path}
use scm_metrics_exporter.Prelude.Tests.{if◌then◌else◌, ltb, ◌==◌, nat_eq}

-- A total order by a Boolean test, as the comparison functions of package slices give it.
pub record IsTotalOrder {ℓ} {A : Type ℓ} (le : A → A → Bool) : Type ℓ where
  pub le_trans : (a b c : A) → le a b ≡ true → le b c ≡ true → le a c ≡ true
  pub le_total : (a b : A) → le a b ≡ false → le b a ≡ true

unfoldable pub leb_text : String → String → Bool
leb_text [] t = true
leb_text (c ∷ s) [] = false
leb_text (c ∷ s) (d ∷ t) =
    let rest = leb_text s t in
    if ltb (code c) (code d) then true else if code c == code d then rest else false

pub leb_text_refl : (s : String) → leb_text s s ≡ true
unfolding leb_text
leb_text_refl [] = refl
leb_text_refl (c ∷ s) = ground (arith, leb_text_refl s)

pub leb_text_trans :
    (a b c : String) → leb_text a b ≡ true → leb_text b c ≡ true → leb_text a c ≡ true
unfolding leb_text
leb_text_trans [] b c h k = refl
leb_text_trans (x ∷ a) (y ∷ b) (z ∷ c) h k = ground (arith, leb_text_trans a b c)
leb_text_trans (x ∷ a) [] c h k = cc
leb_text_trans (x ∷ a) (y ∷ b) [] h k = cc

pub leb_text_total : (a b : String) → leb_text a b ≡ false → leb_text b a ≡ true
unfolding leb_text
leb_text_total [] b h = cc
leb_text_total (x ∷ a) [] h = refl
leb_text_total (x ∷ a) (y ∷ b) h = ground (arith, leb_text_total a b)

leb_text_head :
    (x y : Char) (a b : String)
    → leb_text (x ∷ a) (y ∷ b) ≡ true
    → leb_text (y ∷ b) (x ∷ a) ≡ true
    → (code x ≡ code y) × (leb_text a b ≡ true) × (leb_text b a ≡ true)
unfolding leb_text
leb_text_head x y a b h k = ground arith

pub leb_text_antisymm : (a b : String) → leb_text a b ≡ true → leb_text b a ≡ true → a ≡ b
leb_text_antisymm [] [] h k = refl
leb_text_antisymm [] (y ∷ b) h k = unfold leb_text in cc
leb_text_antisymm (x ∷ a) [] h k = unfold leb_text in cc
leb_text_antisymm (x ∷ a) (y ∷ b) h k =
    let (e, p, q) = leb_text_head x y a b h k in
    ap₂ ◌∷◌ (Char-path x y e) (leb_text_antisymm a b p q)

pub leb_text-IsTotalOrder : IsTotalOrder leb_text
leb_text-IsTotalOrder = record { le_trans = leb_text_trans; le_total = leb_text_total }

-- Two keys compared one after the other, as a comparison function with an early return does.
abbrev pub lex {ℓ} : {A : Type ℓ} → (A → String) → (A → String) → A → A → Bool
lex f g a b =
    if leb_text (f a) (f b)
    then (if leb_text (f b) (f a) then leb_text (g a) (g b) else true)
    else false

pub lex-IsTotalOrder {ℓ} : {A : Type ℓ} (f g : A → String) → IsTotalOrder (lex f g)
lex-IsTotalOrder f g = record {
  le_trans = λ a b c h k. ground (
    arith,
    leb_text_trans (f a) (f b) (f c),
    leb_text_trans (f c) (f a) (f b),
    leb_text_trans (f b) (f c) (f a),
    leb_text_trans (g a) (g b) (g c),
  );
  le_total = λ a b h. ground (arith, leb_text_total (f a) (f b), leb_text_total (g a) (g b));
}
