-- ===== src/Prelude/Keys.antt =====
-- Sorting the keys of a map: the same keys, and still no key twice.
use Prim.Native.String.{String}
use mathlib.Core.Path.{◌≡◌, refl, ap, ◌∙◌}
use mathlib.Core.Bool.{false, ◌||◌}
use mathlib.Core.List.{List, [], ◌∷◌}
use native.Mathlib.Omega.{arith}
use text.Mathlib.TextEquality.{eq_iff}
use scm_metrics_exporter.Prelude.Tests.{◌==◌, string_eq}
use scm_metrics_exporter.Prelude.Lists.{contains, IsDistinct}
use scm_metrics_exporter.Prelude.Order.{leb_text}
use scm_metrics_exporter.Prelude.Sort.{sort, place}

contains-place :
    (x a : String) (xs : List String) → contains (place leb_text x xs) a ≡ (x == a || contains xs a)
unfolding place
contains-place x a [] = refl
contains-place x a (y ∷ ys) = ground (arith, contains-place x a ys)

pub contains-sort : (a : String) (xs : List String) → contains (sort leb_text xs) a ≡ contains xs a
unfolding sort
contains-sort a [] = refl
contains-sort a (x ∷ xs) =
    contains-place x a (sort leb_text xs) ∙ ap (λ b. x == a || b) (contains-sort a xs)

place-IsDistinct :
    (x : String) (xs : List String)
    → contains xs x ≡ false
    → IsDistinct xs
    → IsDistinct (place leb_text x xs)
unfolding place
place-IsDistinct x [] h d = (refl, tt)
place-IsDistinct x (y ∷ ys) h d =
    ground (arith, eq_iff x y, eq_iff y x, contains-place x y ys, place-IsDistinct x ys)

pub sort-IsDistinct : (xs : List String) → IsDistinct xs → IsDistinct (sort leb_text xs)
unfolding sort
sort-IsDistinct [] d = tt
sort-IsDistinct (x ∷ xs) (n, d) =
    place-IsDistinct x (sort leb_text xs) (contains-sort x xs ∙ n) (sort-IsDistinct xs d)
