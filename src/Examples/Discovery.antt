-- ===== src/Examples/Discovery.antt =====
-- Examples about internal/discovery: two pages of an organization, and path.Match.
use scm_metrics_exporter.Prelude.{
  ℕ, String, ◌≡◌, refl, true, false, none, some, List, [], ◌∷◌, ◌++◌, map, filter, if◌then◌else◌,
  ◌==◌, nat_eq, arith,
}
use scm_metrics_exporter.Prelude.Int.{pos}
use scm_metrics_exporter.Prelude.Errors.{Result, ok, err, message, wrap}
use scm_metrics_exporter.Prelude.Text.{plain}
use scm_metrics_exporter.Prelude.Glob.{
  path_match, match_fuel, scan, leading_stars, match_chunk, star_match, ranges, get_esc, check_rest,
}
use scm_metrics_exporter.Discovery.{
  Filter, Selector, Repository, Page, append_matching, list_pages, max_pages, Rate,
}
use scm_metrics_exporter.Discovery.Selection.{chosen, append_matching_lem}
use scm_metrics_exporter.Discovery.Paging.{concat, list_pages_complete, list_pages_broken}

abbrev repo : String → Repository
repo name = record { name = name; archived = false; visibility = "private"; topics = "Go" ∷ [] }

abbrev any_repo : Filter
any_repo = record { topics = []; visibility = []; name_patterns = []; archived = none }

abbrev services : Selector
services = record {
  include = record any_repo { topics = "go" ∷ []; name_patterns = "svc-*" ∷ [] };
  exclude = record any_repo { archived = some true };
}

append_matching_lem_example :
    append_matching ⦃u = plain⦄ ("svc-z" ∷ []) (repo "svc-a" ∷ repo "web" ∷ []) services
    ≡ ("svc-z" ∷ [])
      ++ map (λ r. r.name) (filter (chosen ⦃u = plain⦄ services) (repo "svc-a" ∷ repo "web" ∷ []))
append_matching_lem_example =
    append_matching_lem ⦃u = plain⦄ services (repo "svc-a" ∷ repo "web" ∷ []) ("svc-z" ∷ [])

abbrev pages : ℕ → Result Page
pages n =
    if n == 0
    then ok (repo "svc-a" ∷ [], some 2)
    else if n == 2
    then ok (repo "svc-b" ∷ [], some 0)
    else err (message "no such page")

abbrev listed : List (List Repository)
listed = (repo "svc-a" ∷ []) ∷ (repo "svc-b" ∷ []) ∷ []

list_pages_complete_example :
    list_pages ⦃u = plain⦄ pages "list" services max_pages 0 []
    ≡ ok (map (λ r. r.name) (filter (chosen ⦃u = plain⦄ services) (concat listed)))
list_pages_complete_example =
    list_pages_complete ⦃u = plain⦄ pages "list" services listed
      (some 2, refl, refl, (some 0, refl, refl)) (omega arith)

abbrev one_page : ℕ → Result Page
one_page n = if n == 0 then ok (repo "svc-a" ∷ [], some 5) else err (message "no such page")

list_pages_broken_example :
    list_pages ⦃u = plain⦄ one_page "list" services max_pages 0 []
    ≡ err (wrap "list" (message "no such page"))
list_pages_broken_example =
    list_pages_broken ⦃u = plain⦄ one_page "list" services ((repo "svc-a" ∷ []) ∷ [])
      (message "no such page") (some 5, refl, refl, refl) (omega arith)

abbrev core : Rate
core = record { remaining = pos 4000; reset = pos 100 }

abbrev graphql : Rate
graphql = record { remaining = pos 12; reset = pos 200 }

match_star : path_match "service-*" "service-api" ≡ some true
unfolding path_match match_fuel scan leading_stars match_chunk star_match ranges get_esc check_rest
match_star = refl

match_range : path_match "*.[a-c]x?" "foo.bxz" ≡ some true
unfolding path_match match_fuel scan leading_stars match_chunk star_match ranges get_esc check_rest
match_range = refl

match_slash : path_match "team/*" "team/a/b" ≡ some false
unfolding path_match match_fuel scan leading_stars match_chunk star_match ranges get_esc check_rest
match_slash = refl

match_malformed : path_match "a*b*c[" "axbyc" ≡ none
unfolding path_match match_fuel scan leading_stars match_chunk star_match ranges get_esc check_rest
match_malformed = refl
