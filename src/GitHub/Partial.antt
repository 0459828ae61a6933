-- ===== src/GitHub/Partial.antt =====
-- What becomes of the sources that fail while a repository is collected.
use scm_metrics_exporter.Prelude.{
  String, ◌≡◌, refl, ◌∙◌, Bool, ◌&&◌, Option, none, some, List, ◌++◌,
}
use scm_metrics_exporter.Prelude.Errors.{Error, Result, ok, err, failed, is_some, Gives, guarded}
use scm_metrics_exporter.Prelude.Text.{Unicode}
use scm_metrics_exporter.Provider.{
  SourceError, source_graphql, source_rest, source_secret_scanning, source_workflows,
  source_lifecycle,
}
use scm_metrics_exporter.Provider.Sources.{source_error, supplemented-errors}
use scm_metrics_exporter.GitHub.{code_scanning_for_repo, secret_scanning_for_repo}
use scm_metrics_exporter.GitHub.Repo.{GraphqlRepo, collect_repo_graphql}
use scm_metrics_exporter.GitHub.Collect.{
  Answers, Settings, all_failed, base_snapshot, add_posture, workflow_runs, resolved_findings,
  snapshot_repo,
}

all_failed-is_some :
    (gql : Result GraphqlRepo) (cs ss : Option Error)
    → is_some (all_failed gql cs ss) ≡ (failed gql && (is_some cs && is_some ss))
all_failed-is_some (err e) (some f) (some g) = refl
all_failed-is_some (ok _) cs ss = refl
all_failed-is_some (err e) none ss = refl
all_failed-is_some (err e) (some f) none = refl

-- The source errors of a snapshot, in their order.
abbrev pub reported : (gql cs ss workflows lifecycle : Bool) → List SourceError
reported gql cs ss workflows lifecycle =
    (source_error gql source_graphql
      ++ (source_error cs source_rest ++ source_error ss source_secret_scanning))
    ++ (source_error workflows source_workflows ++ source_error lifecycle source_lifecycle)

module _ ⦃u : Unicode⦄ (p : Settings) (answers : Answers) where
  -- Collecting a repository fails exactly if GraphQL, code scanning and secret scanning all fail.
  -- Otherwise the snapshot reports exactly the sources that failed, those of workflow runs and of
  -- resolved alerts only if they are collected.
  pub snapshot_repo_lem :
      (repo : String)
      → (failed (snapshot_repo p answers repo) ≡ (
          failed (collect_repo_graphql answers.graphql).repo
          && (is_some (code_scanning_for_repo (answers.code "open")).error
              && is_some (secret_scanning_for_repo (answers.secret "open")).error)))
        × Gives
            (λ s.
              s.source_errors
              ≡ reported
                  (failed (collect_repo_graphql answers.graphql).repo)
                  (is_some (code_scanning_for_repo (answers.code "open")).error)
                  (is_some (secret_scanning_for_repo (answers.secret "open")).error)
                  (p.collect_workflows && failed (workflow_runs p answers))
                  (p.collect_lifecycle && failed (resolved_findings p answers)))
            (snapshot_repo p answers repo)
  unfolding snapshot_repo base_snapshot add_posture
  snapshot_repo_lem repo =
      let gql = collect_repo_graphql answers.graphql in
      let cs = code_scanning_for_repo (answers.code "open") in
      let ss = secret_scanning_for_repo (answers.secret "open") in
      let base = add_posture answers.secret_scanning_status (base_snapshot repo gql cs ss) in
      let (fails, gives) = guarded _ (all_failed gql.repo cs.error ss.error) _ (
        supplemented-errors p.collect_workflows p.collect_lifecycle (workflow_runs p answers)
          (resolved_findings p answers) base) in
      (fails ∙ all_failed-is_some gql.repo cs.error ss.error, gives)
