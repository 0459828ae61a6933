-- ===== src/Discovery/Paging.antt =====
-- The page loops of internal/discovery.
use mathlib.Core.List.{append-nil}
use scm_metrics_exporter.Prelude.{
  ℕ, zero, suc, ◌≤◌, ◌<◌, String, ◌≡◌, refl, sym, ap, ◌∙◌, true, false, Option, List, [], ◌∷◌, ◌++◌,
  map, filter, string_eq, arith,
}
use scm_metrics_exporter.Prelude.Errors.{Error, Result, ok, err, wrap}
use scm_metrics_exporter.Prelude.Text.{Unicode}
use scm_metrics_exporter.Discovery.{
  Selector, Repository, append_matching, Page, last_page, next_page, list_pages, max_pages,
}
use scm_metrics_exporter.Discovery.Selection.{chosen, append_matching_lem}

abbrev pub concat : List (List Repository) → List Repository
concat [] = []
concat (p ∷ ps) = p ++ concat ps

abbrev pub count_pages : List (List Repository) → ℕ
count_pages [] = 0
count_pages (p ∷ ps) = suc (count_pages ps)

module _ (fetch : ℕ → Result Page) where
  -- What stands on the pages of a listing from a page on, up to its last page.
  abbrev pub Chain : ℕ → List (List Repository) → Type 0
  Chain page [] = ⊥
  Chain page (rs ∷ []) = (next : Option ℕ) × (fetch page ≡ ok (rs, next)) × (last_page next ≡ true)
  Chain page (rs ∷ (ss ∷ more)) =
      (next : Option ℕ) × (fetch page ≡ ok (rs, next))
      × (last_page next ≡ false)
      × Chain (next_page next) (ss ∷ more)

  -- What stands on the pages before one that fails.
  abbrev pub Breaks : ℕ → List (List Repository) → Error → Type 0
  Breaks page [] e = fetch page ≡ err e
  Breaks page (rs ∷ more) e =
      (next : Option ℕ) × (fetch page ≡ ok (rs, next))
      × (last_page next ≡ false)
      × Breaks (next_page next) more e

append_matching-append :
    ⦃u : Unicode⦄ (sel : Selector) (p rest : List Repository) (out : List String)
    → append_matching (append_matching out p sel) rest sel ≡ append_matching out (p ++ rest) sel
unfolding append_matching
append_matching-append sel [] rest out = refl
append_matching-append sel (r ∷ rs) rest out = append_matching-append sel rs rest _

module _ ⦃u : Unicode⦄ (fetch : ℕ → Result Page) (context : String) (sel : Selector) where
  complete :
      (fuel page : ℕ) (pages : List (List Repository)) (out : List String)
      → Chain fetch page pages
      → count_pages pages ≤ fuel
      → list_pages fetch context sel fuel page out ≡ ok (append_matching out (concat pages) sel)
  unfolding list_pages
  complete fuel page [] out c h = absurd c
  complete zero page (rs ∷ more) out c h = absurd (omega arith)
  complete (suc fuel) page (rs ∷ []) out (next, f, e) h =
      rw (f, list_pages) (rw e (ap (λ x. ok (append_matching out x sel)) (sym (append-nil rs))))
  complete (suc fuel) page (rs ∷ (ss ∷ more)) out (next, f, e, c) h =
      rw (f, list_pages)
        (rw e (
          complete fuel (next_page next) (ss ∷ more) (append_matching out rs sel) c
            (omega (arith, h))
          ∙ ap ok (append_matching-append sel rs (concat (ss ∷ more)) out)))

  broken :
      (fuel page : ℕ) (pages : List (List Repository)) (e : Error) (out : List String)
      → Breaks fetch page pages e
      → count_pages pages < fuel
      → list_pages fetch context sel fuel page out ≡ err (wrap context e)
  unfolding list_pages
  broken zero page pages e out b h = absurd (omega (arith, h))
  broken (suc fuel) page [] e out b h = rw (b, list_pages) refl
  broken (suc fuel) page (rs ∷ more) e out (next, f, l, b) h =
      rw (f, list_pages)
        (rw l
          (broken fuel (next_page next) more e (append_matching out rs sel) b (omega (arith, h))))

-- A GitHub listing of at most a hundred pages gives the matching repositories of all its pages, in
-- order.
pub list_pages_complete :
    ⦃u : Unicode⦄ (fetch : ℕ → Result Page) (context : String) (sel : Selector)
    (pages : List (List Repository))
    → Chain fetch 0 pages
    → count_pages pages ≤ max_pages
    → list_pages fetch context sel max_pages 0 []
      ≡ ok (map (λ r. r.name) (filter (chosen sel) (concat pages)))
list_pages_complete fetch context sel pages c h =
    complete fetch context sel max_pages 0 pages [] c h
    ∙ ap ok (append_matching_lem sel (concat pages) [])

-- If one of the first hundred pages of a GitHub listing fails, the listing fails with that page's
-- error and returns no repositories.
pub list_pages_broken :
    ⦃u : Unicode⦄ (fetch : ℕ → Result Page) (context : String) (sel : Selector)
    (pages : List (List Repository)) (e : Error)
    → Breaks fetch 0 pages e
    → count_pages pages < max_pages
    → list_pages fetch context sel max_pages 0 [] ≡ err (wrap context e)
list_pages_broken fetch context sel pages e b h =
    broken fetch context sel max_pages 0 pages e [] b h
