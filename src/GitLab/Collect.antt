-- ===== src/GitLab/Collect.antt =====
-- `SnapshotRepo` of internal/provider/gitlab/repo.go: one project from all its sources.
use scm_metrics_exporter.Prelude.{
  ℕ, String, ◌≡◌, refl, ◌∙◌, Bool, ◌&&◌, ◌||◌, Option, none, some, List, [], ◌∷◌, ◌++◌,
}
use scm_metrics_exporter.Prelude.Int.{ℤ}
use scm_metrics_exporter.Prelude.Errors.{
  Error, wrap, joined, to_errors, Result, ok, err, failed, is_some, Gives, guarded,
}
use scm_metrics_exporter.Prelude.Sort.{sort}
use scm_metrics_exporter.Prelude.Text.{Unicode}
use scm_metrics_exporter.Provider.{
  Finding, RepoPosture, Snapshot, SourceError, WorkflowRunStat, ResolvedFinding, resource_graphql,
  resource_rest, source_graphql, source_rest, source_workflows, source_lifecycle,
}
use scm_metrics_exporter.Provider.Merge.{finding_le}
use scm_metrics_exporter.Provider.Sources.{
  reading, source_error, add_workflows, add_lifecycle, supplemented-errors,
}
use scm_metrics_exporter.GitLab.{HttpResponse, Swept, later_rate}
use scm_metrics_exporter.GitLab.Graphql.{Vulnerability, Posted, Query, ask, post}
use scm_metrics_exporter.GitLab.Repo.{
  Pipeline, PostureResponse, ResolvedVulnerability, collect_repo_mrs, collect_repo_vulnerabilities,
  collect_repo_posture, collect_pipeline_runs, collect_resolved_findings,
}

-- The answers of the APIs for one project: by the path of a REST request, by the cursor of a GraphQL
-- query. The decoders are those of encoding/json.
pub record Answers : Type 0 where
  pub http : String → Result HttpResponse
  pub merge_requests : String → Result (List ℤ)
  pub pipelines : String → Result (List Pipeline)
  pub vulnerabilities : Query Vulnerability
  pub posture : Result HttpResponse
  pub decode_posture : String → Result PostureResponse
  pub resolved : Query ResolvedVulnerability

-- The settings of the provider, and the starts of its windows: as the source formats the one, and
-- in nanoseconds.
pub record Settings : Type 0 where
  pub collect_workflows : Bool
  pub collect_lifecycle : Bool
  pub workflows_since : String
  pub resolved_since : ℤ

abbrev pub error_of : {A : Type 0} → Result A → Option Error
error_of (ok _) = none
error_of (err e) = some e

abbrev pub all_failed : Option Error → Option Error → Option Error → Option Error
all_failed (some e) (some f) (some g) =
    some (wrap "gitlab: all sources failed" (joined (to_errors (e ∷ f ∷ g ∷ []))))
all_failed none vulns posture = none
all_failed (some e) none posture = none
all_failed (some e) (some f) none = none

abbrev pub posture_of : Result RepoPosture → Option RepoPosture
posture_of (ok p) = some p
posture_of (err _) = none

-- What the three sources that must not all fail gave.
unfoldable pub base_snapshot :
    String → Swept ℕ → Swept (List Finding) → Posted RepoPosture → Snapshot
base_snapshot repo mrs vulns posture = record {
  repos =
      record {
        name = repo;
        open_review_items = mrs.result;
        findings = sort finding_le vulns.result;
        posture = posture_of posture.answer;
        workflow_runs = [];
        resolved_findings = [];
      }
      ∷ [];
  rate_limits =
      reading resource_rest mrs.rate
      ++ reading resource_graphql (later_rate vulns.rate posture.rate);
  source_errors =
      source_error (is_some mrs.error) source_rest
      ++ source_error (is_some vulns.error || failed posture.answer) source_graphql;
}

-- The source errors of a snapshot, in their order.
abbrev pub reported : (mrs graphql workflows lifecycle : Bool) → List SourceError
reported mrs graphql workflows lifecycle =
    (source_error mrs source_rest ++ source_error graphql source_graphql)
    ++ (source_error workflows source_workflows ++ source_error lifecycle source_lifecycle)

all_failed-is_some :
    (mrs vulns : Option Error) (posture : Result RepoPosture)
    → is_some (all_failed mrs vulns (error_of posture))
      ≡ (is_some mrs && (is_some vulns && failed posture))
all_failed-is_some (some e) (some f) (err g) = refl
all_failed-is_some none vulns posture = refl
all_failed-is_some (some e) none posture = refl
all_failed-is_some (some e) (some f) (ok _) = refl

module _ ⦃u : Unicode⦄ (p : Settings) (answers : Answers) where
  unfoldable pub pipeline_runs : String → Result (List WorkflowRunStat)
  pipeline_runs repo = collect_pipeline_runs answers.http answers.pipelines repo p.workflows_since

  unfoldable pub resolved_findings : Result (List ResolvedFinding)
  resolved_findings = collect_resolved_findings p.resolved_since (ask answers.resolved)

  unfoldable pub snapshot_repo : String → Result Snapshot
  unfolding base_snapshot
  snapshot_repo repo =
      let mrs = collect_repo_mrs answers.http answers.merge_requests repo in
      let vulns = collect_repo_vulnerabilities (ask answers.vulnerabilities) in
      let posture = collect_repo_posture (post answers.decode_posture answers.posture) in
      elim (all_failed mrs.error vulns.error (error_of posture.answer)) [
        | some e ↦ err e
        | none ↦ ok (
            add_lifecycle p.collect_lifecycle resolved_findings (
              add_workflows p.collect_workflows (pipeline_runs repo)
                (base_snapshot repo mrs vulns posture)))
      ]

  -- Collecting a project fails exactly if the merge requests, the vulnerabilities and the posture
  -- all fail. Otherwise the snapshot reports exactly the sources that failed: GraphQL once, if the
  -- vulnerabilities or the posture failed, and pipelines and resolved findings only if they are
  -- collected.
  pub snapshot_project_lem :
      (repo : String)
      → let mrs = collect_repo_mrs answers.http answers.merge_requests repo in
        let vulns = collect_repo_vulnerabilities (ask answers.vulnerabilities) in
        let posture = collect_repo_posture (post answers.decode_posture answers.posture) in
        (failed (snapshot_repo repo)
          ≡ (is_some mrs.error && (is_some vulns.error && failed posture.answer)))
        × Gives
            (λ s.
              s.source_errors
              ≡ reported
                  (is_some mrs.error)
                  (is_some vulns.error || failed posture.answer)
                  (p.collect_workflows && failed (pipeline_runs repo))
                  (p.collect_lifecycle && failed resolved_findings))
            (snapshot_repo repo)
  unfolding snapshot_repo base_snapshot
  snapshot_project_lem repo =
      let mrs = collect_repo_mrs answers.http answers.merge_requests repo in
      let vulns = collect_repo_vulnerabilities (ask answers.vulnerabilities) in
      let posture = collect_repo_posture (post answers.decode_posture answers.posture) in
      let (fails, gives) =
        guarded _ (all_failed mrs.error vulns.error (error_of posture.answer)) _ (
          supplemented-errors p.collect_workflows p.collect_lifecycle (pipeline_runs repo)
            resolved_findings (base_snapshot repo mrs vulns posture)) in
      (fails ∙ all_failed-is_some mrs.error vulns.error posture.answer, gives)
