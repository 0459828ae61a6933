-- ===== src/GitHub/Collect.antt =====
-- `SnapshotRepo` of internal/provider/github/github.go: one repository from all its sources.
use scm_metrics_exporter.Prelude.{
  ℕ, String, Bool, Option, none, some, List, [], ◌∷◌, ◌++◌, ◌==◌, string_eq,
}
use scm_metrics_exporter.Prelude.Int.{ℤ}
use scm_metrics_exporter.Prelude.Errors.{
  Error, wrap, joined, to_errors, Result, ok, err, failed, is_some,
}
use scm_metrics_exporter.Prelude.Text.{Unicode}
use scm_metrics_exporter.Provider.{
  RepoPosture, Snapshot, WorkflowRunStat, ResolvedFinding, resource_graphql, resource_rest,
  source_graphql, source_rest, source_secret_scanning,
}
use scm_metrics_exporter.Provider.Sources.{
  reading, source_error, on_first, add_workflows, add_lifecycle,
}
use scm_metrics_exporter.GitHub.{
  Reply, Alert, SecretAlert, WorkflowRun, Scan, code_scanning_for_repo, secret_scanning_for_repo,
  collect_workflow_runs,
}
use scm_metrics_exporter.GitHub.Resolved.{DependabotAlert, collect_resolved_findings}
use scm_metrics_exporter.GitHub.Repo.{
  GraphqlRepo, GraphqlReading, RepoResponse, collect_repo_graphql, merge_repos,
}

-- The answers of the APIs: listings by the state and the page that are asked for.
pub record Answers : Type 0 where
  pub graphql : Result RepoResponse
  pub code : String → ℕ → Reply Alert
  pub secret : String → ℕ → Reply SecretAlert
  pub dependabot : String → ℕ → Reply DependabotAlert
  pub runs : ℕ → Reply WorkflowRun
  pub secret_scanning_status : Result String

-- The settings of the provider, and the start of its resolution window.
pub record Settings : Type 0 where
  pub collect_workflows : Bool
  pub collect_lifecycle : Bool
  pub since : ℤ

abbrev pub all_failed : Result GraphqlRepo → Option Error → Option Error → Option Error
all_failed (err e) (some f) (some g) =
    some (wrap "github: all sources failed" (joined (to_errors (e ∷ f ∷ g ∷ []))))
all_failed (ok _) cs ss = none
all_failed (err e) none ss = none
all_failed (err e) (some f) none = none

abbrev pub graphql_repos : Result GraphqlRepo → List GraphqlRepo
graphql_repos (ok g) = g ∷ []
graphql_repos (err e) = []

-- Code scanning and secret scanning share a budget.
abbrev pub shared_rate : Option ℤ → Option ℤ → Option ℤ
shared_rate (some n) ss = some n
shared_rate none ss = ss

unfoldable pub secret_scanning_enabled : Result String → Result Bool
secret_scanning_enabled (err e) = err e
secret_scanning_enabled (ok status) = ok (status == "enabled")

abbrev pub enable : Result Bool → Option RepoPosture → Option RepoPosture
enable (ok b) (some p) = some (record p { secret_scanning_enabled = b })
enable (err e) p = p
enable (ok b) none = none

unfoldable pub base_snapshot : String → GraphqlReading → Scan → Scan → Snapshot
base_snapshot repo gql cs ss = record {
  repos =
      merge_repos (graphql_repos gql.repo)
        (((repo, cs.findings) ∷ []) ∷ ((repo, ss.findings) ∷ []) ∷ []);
  rate_limits =
      reading resource_graphql gql.rate ++ reading resource_rest (shared_rate cs.rate ss.rate);
  source_errors =
      source_error (failed gql.repo) source_graphql
      ++ (source_error (is_some cs.error) source_rest
          ++ source_error (is_some ss.error) source_secret_scanning);
}

unfoldable pub add_posture : Result String → Snapshot → Snapshot
unfolding secret_scanning_enabled
add_posture status s = record s {
  repos =
      on_first (λ r. record r { posture = enable (secret_scanning_enabled status) r.posture })
        s.repos;
}

module _ ⦃u : Unicode⦄ (p : Settings) (answers : Answers) where
  unfoldable pub workflow_runs : Result (List WorkflowRunStat)
  workflow_runs = collect_workflow_runs answers.runs

  unfoldable pub resolved_findings : Result (List ResolvedFinding)
  resolved_findings =
      collect_resolved_findings p.since answers.code (answers.secret "resolved") answers.dependabot

  unfoldable pub snapshot_repo : String → Result Snapshot
  unfolding base_snapshot add_posture add_workflows add_lifecycle
  snapshot_repo repo =
      let gql = collect_repo_graphql answers.graphql in
      let cs = code_scanning_for_repo (answers.code "open") in
      let ss = secret_scanning_for_repo (answers.secret "open") in
      elim (all_failed gql.repo cs.error ss.error) [
        | some e ↦ err e
        | none ↦ ok (
            add_lifecycle p.collect_lifecycle resolved_findings (
              add_workflows p.collect_workflows workflow_runs
                (add_posture answers.secret_scanning_status (base_snapshot repo gql cs ss))))
      ]
