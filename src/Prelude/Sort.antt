-- ===== src/Prelude/Sort.antt =====
-- `slices.Sort` and `slices.SortFunc`: a sorted permutation of the slice. Go's sort is not stable;
-- this one is, and nothing here depends on how elements that compare equal are ordered.
use mathlib.Core.Path.{◌≡◌}
use mathlib.Core.Bool.{Bool, true}
use mathlib.Core.Logic.{inl, inr}
use mathlib.Core.List.{List, [], ◌∷◌, ◌++◌, Perm}
use mathlib.Core.List.Perm
use scm_metrics_exporter.Prelude.Tests.{if◌then◌else◌, Bool-cases}
use scm_metrics_exporter.Prelude.Lists.{All, All-append, All-map}
use scm_metrics_exporter.Prelude.Order.{IsTotalOrder}

module _ {ℓ} {A : Type ℓ} (le : A → A → Bool) where
  unfoldable pub place : A → List A → List A
  place x [] = x ∷ []
  place x (y ∷ ys) = if le x y then x ∷ (y ∷ ys) else y ∷ place x ys

  unfoldable pub sort : List A → List A
  sort [] = []
  sort (x ∷ xs) = place x (sort xs)

  -- Every element is at most every later one.
  abbrev pub IsSorted : List A → Type 0
  IsSorted [] = Unit
  IsSorted (x ∷ xs) = All (λ y. le x y ≡ true) xs × IsSorted xs

  place-perm : (x : A) (xs : List A) → Perm (place x xs) (x ∷ xs)
  unfolding place
  place-perm x [] = Perm.refl (x ∷ [])
  place-perm x (y ∷ ys) = elim (Bool-cases (le x y)) [
    | inl h ↦ rw h (Perm.refl (x ∷ (y ∷ ys)))
    | inr h ↦ rw h (Perm.trans (Perm.cons y (place-perm x ys)) (Perm.swap x y ys))
  ]

  pub sort-perm : (xs : List A) → Perm (sort xs) xs
  sort-perm [] = unfold sort in Perm.refl []
  sort-perm (x ∷ xs) = Perm.trans (step x xs) (Perm.cons x (sort-perm xs))
    where
      step : (x : A) (xs : List A) → Perm (sort (x ∷ xs)) (x ∷ sort xs)
      step x xs = unfold sort in place-perm x (sort xs)

  module _ {κ} (P : A → Type κ) where
    All-place : (x : A) (xs : List A) → P x → All P xs → All P (place x xs)
    unfolding place
    All-place x [] p h = (p, tt)
    All-place x (y ∷ ys) p (q, h) = elim (Bool-cases (le x y)) [
      | inl e ↦ rw e (p, (q, h))
      | inr e ↦ rw e (q, All-place x ys p h)
    ]

    pub All-sort : (xs : List A) → All P xs → All P (sort xs)
    unfolding sort
    All-sort [] h = tt
    All-sort (x ∷ xs) (p, h) = All-place x (sort xs) p (All-sort xs h)

  pub IsSorted-append :
      (xs ys : List A)
      → IsSorted xs
      → IsSorted ys
      → All (λ x. All (λ y. le x y ≡ true) ys) xs
      → IsSorted (xs ++ ys)
  IsSorted-append [] ys s t h = t
  IsSorted-append (x ∷ xs) ys (l, s) t (p, h) =
      (All-append (λ y. le x y ≡ true) xs ys l p, IsSorted-append xs ys s t h)

  module _ (o : IsTotalOrder le) where
    place-IsSorted : (x : A) (xs : List A) → IsSorted xs → IsSorted (place x xs)
    unfolding place
    place-IsSorted x [] h = (tt, tt)
    place-IsSorted x (y ∷ ys) (h, s) = elim (Bool-cases (le x y)) [
      | inl e ↦ rw e (
        (e, All-map (λ z. le y z ≡ true) (λ z. le x z ≡ true) (λ z k. o.le_trans x y z e k) ys h),
        (h, s),
      )
      | inr e ↦
          rw e (All-place (λ z. le y z ≡ true) x ys (o.le_total x y e) h, place-IsSorted x ys s)
    ]

    pub sort-IsSorted : (xs : List A) → IsSorted (sort xs)
    unfolding sort
    sort-IsSorted [] = tt
    sort-IsSorted (x ∷ xs) = place-IsSorted x (sort xs) (sort-IsSorted xs)
