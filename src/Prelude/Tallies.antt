-- ===== src/Prelude/Tallies.antt =====
-- Counting the elements of a list by key in a map, `counts[k]++`.
use Prim.Native.Nat.{ℕ, ◌+◌}
use mathlib.Core.Path.{◌≡◌, refl, ◌∙◌}
use mathlib.Core.Bool.{Bool, ◌||◌}
use mathlib.Core.List.{List, [], ◌∷◌}
use native.Mathlib.Omega.{arith}
use scm_metrics_exporter.Prelude.Tests.{Eq, ◌==◌}
use scm_metrics_exporter.Prelude.Lists.{length, count, any, contains, IsDistinct}
use scm_metrics_exporter.Prelude.Assoc.{
  Map, keys, lookup, get, adjust, get-adjust, contains-keys-adjust, adjust-IsDistinct,
}

abbrev pub total {ℓ} : {K : Type ℓ} → Map K ℕ → ℕ
total [] = 0
total ((_, n) ∷ m) = n + total m

flip : (a b c : Bool) → ((a || b) || c) ≡ (b || (a || c))
flip a b c = ground arith

module _ {ℓ κ} {A : Type ℓ} {K : Type κ} ⦃e : Eq K⦄ (key : A → K) where
  unfoldable pub count_by : List A → Map K ℕ → Map K ℕ
  count_by [] m = m
  count_by (x ∷ xs) m = count_by xs (adjust 0 (λ n. n + 1) (key x) m)

  pub get-count_by :
      (k : K) (xs : List A) (m : Map K ℕ)
      → get 0 k (count_by xs m) ≡ get 0 k m + count (λ x. key x == k) xs
  unfolding count_by
  get-count_by k [] m = omega arith
  get-count_by k (x ∷ xs) m =
      get-count_by k xs (adjust 0 (λ n. n + 1) (key x) m)
      ∙ rw (get-adjust 0 (λ n. n + 1) (key x) k m) (ground (arith, e.beq_iff (key x) k))

  pub contains-count_by :
      (k : K) (xs : List A) (m : Map K ℕ)
      → contains (keys (count_by xs m)) k ≡ (contains (keys m) k || any (λ x. key x == k) xs)
  unfolding count_by
  contains-count_by k [] m = ground arith
  contains-count_by k (x ∷ xs) m =
      contains-count_by k xs (adjust 0 (λ n. n + 1) (key x) m)
      ∙ rw (contains-keys-adjust 0 (λ n. n + 1) (key x) k m)
          (flip (key x == k) (contains (keys m) k) _)

  pub count_by-IsDistinct :
      (xs : List A) (m : Map K ℕ) → IsDistinct (keys m) → IsDistinct (keys (count_by xs m))
  unfolding count_by
  count_by-IsDistinct [] m h = h
  count_by-IsDistinct (x ∷ xs) m h =
      count_by-IsDistinct xs _ (adjust-IsDistinct 0 (λ n. n + 1) (key x) m h)

  total-adjust : (k : K) (m : Map K ℕ) → total (adjust 0 (λ n. n + 1) k m) ≡ total m + 1
  unfolding adjust
  total-adjust k [] = refl
  total-adjust k ((j, n) ∷ m) = ground (arith, total-adjust k m)

  pub total-count_by : (xs : List A) (m : Map K ℕ) → total (count_by xs m) ≡ total m + length xs
  unfolding count_by
  total-count_by [] m = omega arith
  total-count_by (x ∷ xs) m =
      total-count_by xs (adjust 0 (λ n. n + 1) (key x) m) ∙ omega (arith, total-adjust (key x) m)

  -- Counting from an empty map.
  pub get-tally : (k : K) (xs : List A) → get 0 k (count_by xs []) ≡ count (λ x. key x == k) xs
  unfolding lookup
  get-tally k xs = omega (arith, get-count_by k xs [])

  pub total-tally : (xs : List A) → total (count_by xs []) ≡ length xs
  total-tally xs = omega (arith, total-count_by xs [])
