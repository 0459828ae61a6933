-- ===== src/GitHub/Whole.antt =====
-- The findings of a repository that is collected from several sources.
use mathlib.Core.List.{Perm}
use scm_metrics_exporter.Prelude.{
  ℕ, String, ◌≡◌, refl, ap, Bool, true, false, Option, none, List, [], ◌∷◌, ◌++◌, string_eq,
  beq_refl,
}
use scm_metrics_exporter.Prelude.Errors.{Result, ok, err, Gives, guarded}
use scm_metrics_exporter.Prelude.Assoc.{Map, get, lookup, adjust}
use scm_metrics_exporter.Prelude.Sort.{sort, place, sort-perm}
use scm_metrics_exporter.Prelude.Text.{Unicode}
use scm_metrics_exporter.Provider.{
  Finding, RepoPosture, RepoMetrics, Snapshot, WorkflowRunStat, ResolvedFinding,
}
use scm_metrics_exporter.GitHub.{Scan, code_scanning_for_repo, secret_scanning_for_repo}
use scm_metrics_exporter.GitHub.Repo.{
  GraphqlRepo, GraphqlReading, collect_repo_graphql, merge_repos,
}
use scm_metrics_exporter.Provider.Merge.{merged_rows, finding_le}
use scm_metrics_exporter.Provider.Sources.{on_first, add_workflows, add_lifecycle}
use scm_metrics_exporter.GitHub.Collect.{
  Answers, Settings, all_failed, graphql_repos, base_snapshot, add_posture, workflow_runs,
  resolved_findings, snapshot_repo,
}

-- The answer to a query by name is about the repository of that name.
abbrev pub IsAbout : String → Result GraphqlRepo → Type 0
IsAbout repo (ok g) = g.name ≡ repo
IsAbout repo (err e) = Unit

abbrev pub dependency_findings : Result GraphqlRepo → List Finding
dependency_findings (ok g) = g.findings
dependency_findings (err e) = []

abbrev pub open_prs_of : Result GraphqlRepo → ℕ
open_prs_of (ok g) = g.open_prs
open_prs_of (err e) = 0

-- A snapshot of one repository with the open review items and all the findings of its sources.
abbrev pub IsWhole : String → Result GraphqlRepo → Scan → Scan → Snapshot → Type 0
IsWhole repo gql cs ss s =
    (r : RepoMetrics) × (s.repos ≡ r ∷ [])
    × (r.name ≡ repo)
    × (r.open_review_items ≡ open_prs_of gql)
    × Perm r.findings ((dependency_findings gql ++ cs.findings) ++ ss.findings)

abbrev posture_of : Result GraphqlRepo → Option RepoPosture
posture_of (ok g) = g.posture
posture_of (err e) = none

abbrev row : String → Result GraphqlRepo → List Finding → List Finding → RepoMetrics
row repo gql cf sf = record {
  name = repo;
  open_review_items = open_prs_of gql;
  findings = sort finding_le ((dependency_findings gql ++ cf) ++ sf);
  posture = posture_of gql;
  workflow_runs = [];
  resolved_findings = [];
}

get_here : (d v : RepoMetrics) (k : String) (m : Map String RepoMetrics) → get d k ((k, v) ∷ m) ≡ v
unfolding lookup
get_here d v k m = rw (beq_refl k) refl

-- One row with its findings sorted.
abbrev sorted_row : RepoMetrics → List RepoMetrics
sorted_row r = record r { findings = sort finding_le r.findings } ∷ []

merge_one :
    (repo : String) (gql : Result GraphqlRepo) (cf sf : List Finding)
    → IsAbout repo gql
    → merge_repos (graphql_repos gql) (((repo, cf) ∷ []) ∷ ((repo, sf) ∷ []) ∷ [])
      ≡ row repo gql cf sf ∷ []
unfolding merge_repos adjust merged_rows sort place
merge_one repo (err e) cf sf h = rw (beq_refl repo) (ap sorted_row (get_here _ _ repo []))
merge_one repo (ok g) cf sf h =
    rw (h, beq_refl repo) (rw (beq_refl repo) (ap sorted_row (get_here _ _ repo [])))

base-IsWhole :
    (repo : String) (gql : GraphqlReading) (cs ss : Scan)
    → IsAbout repo gql.repo
    → IsWhole repo gql.repo cs ss (base_snapshot repo gql cs ss)
unfolding base_snapshot
base-IsWhole repo gql cs ss h = (
  row repo gql.repo cs.findings ss.findings,
  merge_one repo gql.repo cs.findings ss.findings h,
  refl,
  refl,
  sort-perm finding_le _,
)

module _ (repo : String) (gql : Result GraphqlRepo) (cs ss : Scan) where
  add_posture-IsWhole :
      (status : Result String) (s : Snapshot)
      → IsWhole repo gql cs ss s
      → IsWhole repo gql cs ss (add_posture status s)
  unfolding add_posture
  add_posture-IsWhole status s (r, e, n, o, h) = (_, ap (on_first _) e, n, o, h)

  add_workflows-IsWhole :
      (collect : Bool) (runs : Result (List WorkflowRunStat)) (s : Snapshot)
      → IsWhole repo gql cs ss s
      → IsWhole repo gql cs ss (add_workflows collect runs s)
  unfolding add_workflows
  add_workflows-IsWhole false runs s h = h
  add_workflows-IsWhole true (err _) s h = h
  add_workflows-IsWhole true (ok a) s (r, e, n, o, h) = (_, ap (on_first _) e, n, o, h)

  add_lifecycle-IsWhole :
      (collect : Bool) (fs : Result (List ResolvedFinding)) (s : Snapshot)
      → IsWhole repo gql cs ss s
      → IsWhole repo gql cs ss (add_lifecycle collect fs s)
  unfolding add_lifecycle
  add_lifecycle-IsWhole false fs s h = h
  add_lifecycle-IsWhole true (err _) s h = h
  add_lifecycle-IsWhole true (ok a) s (r, e, n, o, h) = (_, ap (on_first _) e, n, o, h)

module _ ⦃u : Unicode⦄ (p : Settings) (answers : Answers) where
  -- If the GraphQL answer, when there is one, is about the repository that was asked for, a snapshot
  -- of the repository has one entry, of that name, with the open pull requests of the GraphQL answer
  -- and exactly the findings of the three sources, each as often as it was reported.
  pub snapshot_repo-IsWhole :
      (repo : String)
      → IsAbout repo (collect_repo_graphql answers.graphql).repo
      → Gives
          (IsWhole repo
            (collect_repo_graphql answers.graphql).repo
            (code_scanning_for_repo (answers.code "open"))
            (secret_scanning_for_repo (answers.secret "open")))
          (snapshot_repo p answers repo)
  unfolding snapshot_repo
  snapshot_repo-IsWhole repo about =
      let gql = collect_repo_graphql answers.graphql in
      let cs = code_scanning_for_repo (answers.code "open") in
      let ss = secret_scanning_for_repo (answers.secret "open") in
      let s = base_snapshot repo gql cs ss in
      let status = answers.secret_scanning_status in
      let whole =
        add_posture-IsWhole repo gql.repo cs ss status s (base-IsWhole repo gql cs ss about) in
      let whole =
        add_workflows-IsWhole repo gql.repo cs ss p.collect_workflows (workflow_runs p answers) _
          whole in
      (guarded (IsWhole repo gql.repo cs ss) (all_failed gql.repo cs.error ss.error) _ (
        add_lifecycle-IsWhole repo gql.repo cs ss p.collect_lifecycle (resolved_findings p answers)
          _ whole)).1
