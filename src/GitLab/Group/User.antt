-- ===== src/GitLab/Group/User.antt =====
-- The rows of a user's snapshot, from the answers of the REST API.
use mathlib.Core.List.{append_assoc, append-nil}
use scm_metrics_exporter.Prelude.{
  ℕ, ◌+◌, String, ◌≡◌, refl, sym, ap, ◌∙◌, inl, inr, true, Option, none, some, List, [], ◌∷◌, ◌++◌,
  map, length, contains, if◌then◌else◌, ◌==◌, string_eq, Option-cases, arith,
}
use scm_metrics_exporter.Prelude.Int.{ℤ}
use scm_metrics_exporter.Prelude.Assoc.{lookup}
use scm_metrics_exporter.Prelude.Errors.{Error, Gives, guarded}
use scm_metrics_exporter.Prelude.Text.{Unicode}
use scm_metrics_exporter.Prelude.Text.Decimal.{format_int}
use scm_metrics_exporter.Provider.Merge.{row_of}
use scm_metrics_exporter.GitLab.{Swept, later_rate, default_max_pages}
use scm_metrics_exporter.GitLab.Pages.{rest_items, rest_pages-result, length-IgnoresPages}
use scm_metrics_exporter.GitLab.Rest.{
  Project, RestProject, joined, page_at, listed, add_projects, list_projects, user_projects_path,
  count_project_open_mrs, count_projects, user_projects, collect_rest, collect_rest_for_user,
}
use scm_metrics_exporter.GitLab.Merge.{mrs_at, merge_repos, project_row, paths}
use scm_metrics_exporter.GitLab.Group.{
  Target, GroupAnswers, rest_of, rest_failed, user_snapshot, snapshot_of_user, snapshot,
}
use scm_metrics_exporter.GitLab.Group.Rows.{add_projects-IgnoresPages}
use scm_metrics_exporter.GitLab.Group.Rows.Whole.{listed_row}

abbrev counted_by : (ℤ → Swept ℕ) → RestProject → RestProject
counted_by count p = record p { open_mrs = (count p.id).result }

-- Without an error, each project has its own count.
count_projects-result :
    (count : ℤ → Swept ℕ) (todo counted : List RestProject) (rate : Option ℤ)
    → (count_projects count counted todo rate).error ≡ none
    → (count_projects count counted todo rate).result ≡ counted ++ map (counted_by count) todo
unfolding count_projects
count_projects-result count [] counted rate = λ fine. sym (append-nil counted)
count_projects-result count (p ∷ todo) counted rate = elim (Option-cases (count p.id).error) [
  | inr (e, failed) ↦ rw (failed, count_projects) (λ fine. cc)
  | inl whole ↦
      rw (whole, count_projects)
        (λ fine.
          count_projects-result count todo (counted ++ counted_by count p ∷ [])
            (later_rate rate (count p.id).rate) fine
          ∙ append_assoc counted (counted_by count p ∷ []) (map (counted_by count) todo))
]

user_projects-fine :
    (projects counted : Swept (List RestProject)) (o : Option Error)
    → (user_projects projects counted o).error ≡ none
    → ((user_projects projects counted o).result ≡ counted.result) × (counted.error ≡ none)
user_projects-fine projects counted (some e) fine = cc
user_projects-fine projects counted none fine = (refl, fine)

module _ (a : GroupAnswers) where
  -- The open merge requests of a project on the pages of its listing.
  abbrev pub own_mrs : ℤ → List ℤ
  own_mrs id =
      rest_items a.json.merge_requests
        (page_at a.http (
          joined ("/projects/" ∷ format_int id ∷ "/merge_requests?state=opened&per_page=100" ∷ [])))
        default_max_pages "1"

  count_project_open_mrs-result :
      (id : ℤ) → (count_project_open_mrs a.http a.json id).result ≡ length (own_mrs id)
  unfolding count_project_open_mrs
  count_project_open_mrs-result id =
      let path =
        joined ("/projects/" ∷ format_int id ∷ "/merge_requests?state=opened&per_page=100" ∷ []) in
      rest_pages-result (λ n mrs. n + length mrs) a.json.merge_requests (page_at a.http path)
        default_max_pages "1" 0 none length-IgnoresPages
      ∙ omega arith

  -- The open merge requests of the last listed project of a path, by its own listing.
  abbrev pub own_mrs_of : String → List Project → (before : ℕ) → ℕ
  own_mrs_of n [] before = before
  own_mrs_of n (p ∷ ps) before =
      own_mrs_of n ps (if p.path_with_namespace == n then length (own_mrs p.id) else before)

  abbrev own : RestProject → RestProject
  own = counted_by (count_project_open_mrs a.http a.json)

  mrs_at-own :
      (n : String) (ps : List Project) (before : ℕ)
      → mrs_at n (map own (map listed ps)) before ≡ own_mrs_of n ps before
  mrs_at-own n [] before = refl
  mrs_at-own n (p ∷ ps) before =
      ap
        (λ k. mrs_at n (map own (map listed ps)) (if p.path_with_namespace == n then k else before))
        (count_project_open_mrs-result p.id)
      ∙ mrs_at-own n ps (if p.path_with_namespace == n then length (own_mrs p.id) else before)

  paths-own :
      (ps : List Project) → paths (map own (map listed ps)) ≡ map (λ p. p.path_with_namespace) ps
  paths-own [] = refl
  paths-own (p ∷ ps) = ap (λ ns. p.path_with_namespace ∷ ns) (paths-own ps)

module _ (t : Target) (a : GroupAnswers) where
  -- What the pages of the REST API list of a user.
  abbrev pub owned_read : List Project
  owned_read =
      rest_items a.json.projects (page_at a.http (user_projects_path t.include_archived t.target))
        default_max_pages "1"

  abbrev listing : Swept (List RestProject)
  listing = list_projects a.http a.json (user_projects_path t.include_archived t.target)

  listing-result : listing.result ≡ map listed owned_read
  unfolding list_projects add_projects
  listing-result =
      rest_pages-result add_projects a.json.projects
        (page_at a.http (user_projects_path t.include_archived t.target)) default_max_pages "1" []
        none add_projects-IgnoresPages

  of_user :
      (t.target_type == "user") ≡ true
      → rest_of t a
        ≡ user_projects listing
            (count_projects (count_project_open_mrs a.http a.json) [] listing.result listing.rate)
            listing.error
  unfolding rest_of collect_rest collect_rest_for_user
  of_user user = rw user refl

  rest_of-user :
      (t.target_type == "user") ≡ true
      → (rest_of t a).error ≡ none
      → (rest_of t a).result ≡ map (own a) (map listed owned_read)
  rest_of-user user fine =
      let count = count_project_open_mrs a.http a.json in
      let counts = count_projects count [] listing.result listing.rate in
      let (same, whole) =
        user_projects-fine listing counts listing.error
          (ap (λ s. s.error) (sym (of_user user)) ∙ fine) in
      ap (λ s. s.result) (of_user user)
      ∙ same
      ∙ count_projects-result count listing.result [] listing.rate whole
      ∙ ap (λ ps. map (own a) ps) listing-result

module _ ⦃u : Unicode⦄ (t : Target) (a : GroupAnswers) where
  -- A user is collected whose REST API does not fail. The snapshot has a row for each project of the
  -- listed pages, with the number of the open merge requests on the pages of the project's own
  -- listing, and with nothing else in it.
  pub user_row :
      (n : String)
      → (t.target_type == "user") ≡ true
      → (rest_of t a).error ≡ none
      → contains (map (λ p. p.path_with_namespace) (owned_read t a)) n ≡ true
      → Gives
          (λ s. row_of n s.repos ≡ some (project_row n (own_mrs_of a n (owned_read t a) 0) [] none))
          (snapshot t a)
  unfolding snapshot snapshot_of_user user_snapshot lookup
  user_row n user fine here =
      let ps = map (own a) (map listed (owned_read t a)) in
      let named : contains (paths ps) n ≡ true =
        ap (λ ns. contains ns n) (paths-own a (owned_read t a)) ∙ here in
      let row : row_of n (merge_repos (rest_of t a).result [] [])
          ≡ some (project_row n (own_mrs_of a n (owned_read t a) 0) [] none) =
        ap (λ ps. row_of n (merge_repos ps [] [])) (rest_of-user t a user fine)
        ∙ listed_row ps [] [] n tt tt named
        ∙ ap (λ k. some (project_row n k [] none)) (mrs_at-own a n (owned_read t a) 0) in
      rw user ((guarded _ (rest_failed (rest_of t a).error) (user_snapshot (rest_of t a)) row).1)
