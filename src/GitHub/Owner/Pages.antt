-- ===== src/GitHub/Owner/Pages.antt =====
-- What the listings of an organization's alerts collect.
use mathlib.Core.List.{append_assoc, append-nil}
use scm_metrics_exporter.Prelude.{
  ℕ, zero, suc, String, ◌≡◌, refl, sym, ap, ◌∙◌, inl, inr, true, false, Option, none, some, List,
  [], ◌∷◌, ◌++◌, map, filter, IsDistinct, ◌==◌, string_eq, Bool-cases, Option-cases, eq_of_beq,
  arith,
}
use text.Mathlib.TextEquality.{eq_iff}
use scm_metrics_exporter.Prelude.Int.{ℤ}
use scm_metrics_exporter.Prelude.Assoc.{Map, keys, get, lookup, get-adjust, adjust-IsDistinct}
use scm_metrics_exporter.Prelude.Errors.{Result, ok, err, Result-cases}
use scm_metrics_exporter.Provider.{Finding}
use scm_metrics_exporter.GitHub.{Reply, following, rate_after}
use scm_metrics_exporter.Provider.Merge.Findings.{under_map, under_map-get}
use scm_metrics_exporter.GitHub.Owner.{Owned, add_to, group_page, org_pages}

-- The items of the pages of a listing, in order, up to the first page that fails.
abbrev items_of : {A : Type 0} → Result (List A) → List A
items_of (ok xs) = xs
items_of (err e) = []

abbrev after_page : {A : Type 0} → Result (List A) → Option ℕ → (ℕ → List A) → List A
after_page (err e) next rest = []
after_page (ok xs) none rest = xs
after_page (ok xs) (some n) rest = xs ++ rest n

unfoldable pub pages_read : {A : Type 0} → (ℕ → Reply A) → (fuel current : ℕ) → List A
pages_read page zero current = []
pages_read page (suc fuel) current =
    after_page (page current).items (following (page current).reply) (pages_read page fuel)

module _ {A : Type 0} (finding : A → Finding) where
  -- The findings of the alerts of one repository.
  abbrev pub of_repo : String → List (Owned A) → List Finding
  of_repo n alerts = map (λ a. finding a.alert) (filter (λ a. a.repository == n) alerts)

  -- What is collected under a name.
  abbrev Gathers : Map String (List Finding) → List (Owned A) → Map String (List Finding) → Type 0
  Gathers m alerts m' =
      (IsDistinct (keys m) → IsDistinct (keys m'))
      × ((n : String) → (n == "") ≡ false → get [] n m' ≡ get [] n m ++ of_repo n alerts)

  add_to-Gathers :
      (a : Owned A) (m : Map String (List Finding))
      → Gathers m (a ∷ []) (add_to a.repository (finding a.alert ∷ []) m)
  add_to-Gathers a m = (adjust-IsDistinct [] _ a.repository m, appended)
    where
      appended :
          (n : String)
          → (n == "") ≡ false
          → get [] n (add_to a.repository (finding a.alert ∷ []) m)
            ≡ get [] n m ++ of_repo n (a ∷ [])
      appended n h = elim (Bool-cases (a.repository == n)) [
        | inl e ↦
            rw (get-adjust [] (λ old. old ++ finding a.alert ∷ []) a.repository n m, e)
              (ap (λ k. get [] k m ++ finding a.alert ∷ []) (eq_of_beq a.repository n e))
        | inr e ↦
            rw (get-adjust [] (λ old. old ++ finding a.alert ∷ []) a.repository n m, e)
              (sym (append-nil (get [] n m)))
      ]

  skip-Gathers :
      (a : Owned A) (m : Map String (List Finding))
      → (a.repository == "") ≡ true
      → Gathers m (a ∷ []) m
  skip-Gathers a m nameless = (λ d. d, skipped)
    where
      skipped : (n : String) → (n == "") ≡ false → get [] n m ≡ get [] n m ++ of_repo n (a ∷ [])
      skipped n h =
          let other : (a.repository == n) ≡ false =
            ground (arith, eq_iff a.repository n, eq_iff a.repository "") in
          rw other (sym (append-nil (get [] n m)))

  of_repo-append :
      (n : String) (xs ys : List (Owned A)) → of_repo n (xs ++ ys) ≡ of_repo n xs ++ of_repo n ys
  of_repo-append n [] ys = refl
  of_repo-append n (x ∷ xs) ys = elim (Bool-cases (x.repository == n)) [
    | inl e ↦ rw (e, of_repo-append n xs ys) refl
    | inr e ↦ rw (e, of_repo-append n xs ys) refl
  ]

  Gathers-nil : (m : Map String (List Finding)) → Gathers m [] m
  Gathers-nil m = (λ d. d, λ n h. sym (append-nil (get [] n m)))

  Gathers-trans :
      (a b c : Map String (List Finding)) (xs ys : List (Owned A))
      → Gathers a xs b
      → Gathers b ys c
      → Gathers a (xs ++ ys) c
  Gathers-trans a b c xs ys (d, f) (e, g) = (
    λ h. e (d h),
    λ n h.
        g n h
        ∙ ap (λ fs. fs ++ of_repo n ys) (f n h)
        ∙ append_assoc (get [] n a) (of_repo n xs) (of_repo n ys)
        ∙ ap (λ fs. get [] n a ++ fs) (sym (of_repo-append n xs ys)),
  )

  group_page-Gathers :
      (alerts : List (Owned A)) (m : Map String (List Finding))
      → Gathers m alerts (group_page finding alerts m)
  unfolding group_page
  group_page-Gathers [] m = Gathers-nil m
  group_page-Gathers (a ∷ alerts) m = elim (Bool-cases (a.repository == "")) [
    | inl e ↦ rw e (
        Gathers-trans m m (group_page finding alerts m) (a ∷ []) alerts (skip-Gathers a m e)
          (group_page-Gathers alerts m))
    | inr e ↦ rw e (
        let m' = add_to a.repository (finding a.alert ∷ []) m in
        Gathers-trans m m' (group_page finding alerts m') (a ∷ []) alerts (add_to-Gathers a m)
          (group_page-Gathers alerts m'))
  ]

  org_pages-Gathers :
      (page : ℕ → Reply (Owned A)) (fuel current : ℕ) (m : Map String (List Finding))
      (rate : Option ℤ)
      → Gathers m
          (pages_read page fuel current)
          (org_pages finding page fuel current m rate).findings
  unfolding org_pages pages_read
  org_pages-Gathers page zero current m rate = Gathers-nil m
  org_pages-Gathers page (suc fuel) current m rate = elim (Result-cases (page current).items) [
    | inr (e, failed) ↦ rw (failed, org_pages) (Gathers-nil m)
    | inl (alerts, read) ↦
        let m' = group_page finding alerts m in
        let grouped = group_page-Gathers alerts m in
        rw (read, org_pages)
          (elim (Option-cases (following (page current).reply)) [
            | inl last ↦ rw (last, org_pages) grouped
            | inr (next, more) ↦
                rw (more, org_pages)
                  (Gathers-trans m m' _ alerts (pages_read page fuel next) grouped
                    (org_pages-Gathers page fuel next m' (rate_after rate (page current).reply)))
          ])
  ]

-- An organization's listing collects under a name the findings of exactly the alerts of that
-- repository on the pages that were read.
pub org_pages-under :
    {A : Type 0} (finding : A → Finding) (page : ℕ → Reply (Owned A)) (fuel : ℕ) (n : String)
    → (n == "") ≡ false
    → under_map n (org_pages finding page fuel 0 [] none).findings
      ≡ of_repo finding n (pages_read page fuel 0)
unfolding pages_read lookup
org_pages-under finding page fuel n h =
    let (single, gathered) = org_pages-Gathers finding page fuel 0 [] none in
    under_map-get n _ (single tt) ∙ gathered n h
