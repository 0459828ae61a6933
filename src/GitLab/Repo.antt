-- ===== src/GitLab/Repo.antt =====
-- One project of GitLab (repo.go and lifecycle.go): open merge requests, vulnerabilities, posture,
-- pipelines and resolved findings.
use scm_metrics_exporter.Prelude.{
  ℕ, ◌+◌, String, Bool, ◌||◌, Option, none, some, List, [], ◌∷◌, ◌++◌, length, contains,
  if◌then◌else◌, ◌==◌, string_eq,
}
use scm_metrics_exporter.Prelude.Int.{ℤ, pos, ltb_ℤ}
use scm_metrics_exporter.Prelude.Assoc.{adjust}
use scm_metrics_exporter.Prelude.Errors.{message, Result, ok, err}
use scm_metrics_exporter.Prelude.Text.{Unicode, to_lower, equal_fold}
use scm_metrics_exporter.Prelude.Text.Trim.{trim_space}
use scm_metrics_exporter.Prelude.Text.Url.{path_escape, query_escape}
use scm_metrics_exporter.Provider.{
  Finding, RepoPosture, ResolvedFinding, WorkflowRunStat, state_resolved, state_dismissed,
  resolution_fixed, resolution_dismissed_not_a_risk, resolution_dismissed_accepted_risk,
}
use scm_metrics_exporter.Provider.Severity.{normalize_severity}
use scm_metrics_exporter.Provider.Tally.{Tally, workflow_run_stats_from_tally}
use scm_metrics_exporter.GitLab.{HttpResponse, Swept, rest_pages, default_max_pages}
use scm_metrics_exporter.GitLab.Rest.{page_at, joined}
use scm_metrics_exporter.GitLab.Graphql.{
  Vulnerability, Envelope, Posted, ProjectNode, graphql_pages, vulnerability_finding, category_of,
  project_posture, parse_gitlab_time,
}

pub record Pipeline : Type 0 where
  pub status : String
  pub source : String

abbrev pub terminal_pipeline_statuses : List String
terminal_pipeline_statuses = "success" ∷ "failed" ∷ "canceled" ∷ "skipped" ∷ []

unfoldable pub project_mrs_path : String → String
project_mrs_path path =
    joined ("/projects/" ∷ path_escape path ∷ "/merge_requests?state=opened&per_page=100" ∷ [])

-- `since` is the start of the lookback window as the source formats it.
unfoldable pub pipelines_path : String → String → String
pipelines_path path since = joined (
    "/projects/"
    ∷ path_escape path
    ∷ "/pipelines?updated_after="
    ∷ query_escape since
    ∷ "&per_page=100"
    ∷ [])

unfoldable pub collect_repo_mrs :
    (http : String → Result HttpResponse) → (decode : String → Result (List ℤ)) → String → Swept ℕ
unfolding rest_pages
collect_repo_mrs http decode path =
    rest_pages decode (λ n mrs. n + length mrs) (page_at http (project_mrs_path path))
      default_max_pages "1" 0 none

-- A resolved or dismissed finding as the API lists it. A date is none if it is null, and holds
-- none if it is no RFC 3339 text.
pub record ResolvedVulnerability : Type 0 where
  pub id : String
  pub severity : String
  pub report_type : String
  pub state : String
  pub detected_at : Option ℤ
  pub resolved_at : Option (Option ℤ)
  pub dismissed_at : Option (Option ℤ)
  pub dismissal_reason : Option String

abbrev pub deref : Option String → String
deref none = ""
deref (some s) = s

abbrev pub first_date : Option (Option ℤ) → Option (Option ℤ) → ℤ
first_date (some t) next = parse_gitlab_time t
first_date none (some t) = parse_gitlab_time t
first_date none none = pos 0

-- The answer to the posture query of a project.
pub record PostureResponse : Type 0 where
  pub project : Option ProjectNode
  pub errors : List String

module _ ⦃u : Unicode⦄ where
  unfoldable pub tally_pipeline : Tally → Pipeline → Tally
  tally_pipeline tally pl =
      let status = to_lower pl.status in
      let source = if pl.source == "" then "unknown" else pl.source in
      if contains terminal_pipeline_statuses status
      then adjust [] (adjust 0 (λ n. n + 1) status) source tally
      else tally

  unfoldable pub tally_pipelines : Tally → List Pipeline → Tally
  unfolding tally_pipeline
  tally_pipelines tally [] = tally
  tally_pipelines tally (pl ∷ pls) = tally_pipelines (tally_pipeline tally pl) pls

  unfoldable pub collect_pipeline_runs :
      (http : String → Result HttpResponse)
      → (decode : String → Result (List Pipeline)) → String
      → (since : String) → Result (List WorkflowRunStat)
  unfolding rest_pages tally_pipelines pipelines_path
  collect_pipeline_runs http decode path since =
      let s =
        rest_pages decode tally_pipelines (page_at http (pipelines_path path since))
          default_max_pages "1" [] none in
      elim s.error [ some e ↦ err e | none ↦ ok (workflow_run_stats_from_tally s.result) ]

  unfoldable pub add_vulnerabilities : List Finding → List Vulnerability → List Finding
  unfolding vulnerability_finding
  add_vulnerabilities fs [] = fs
  add_vulnerabilities fs (n ∷ ns) = elim (vulnerability_finding n) [
    | none ↦ add_vulnerabilities fs ns
    | some f ↦ add_vulnerabilities (fs ++ f ∷ []) ns
  ]

  unfoldable pub collect_repo_vulnerabilities :
      (Option String → Posted (Envelope Vulnerability)) → Swept (List Finding)
  unfolding graphql_pages add_vulnerabilities
  collect_repo_vulnerabilities query =
      graphql_pages add_vulnerabilities
        (some (message "gitlab graphql: vulnerabilities unavailable for project")) query
        default_max_pages none [] none

  abbrev posture_answer : List String → Option ProjectNode → Result RepoPosture
  posture_answer (e ∷ es) _ = err (message "gitlab graphql errors")
  posture_answer [] none = err (message "gitlab graphql: project not found or inaccessible")
  posture_answer [] (some n) =
      ok (project_posture n.visibility n.archived n.security_scanners n.branch_rules)

  abbrev answered : Result PostureResponse → Result RepoPosture
  answered (err e) = err e
  answered (ok r) = posture_answer r.errors r.project

  unfoldable pub collect_repo_posture : Posted PostureResponse → Posted RepoPosture
  unfolding project_posture
  collect_repo_posture p = record { answer = answered p.answer; rate = p.rate }

  abbrev is_resolved : String → Bool
  is_resolved state = equal_fold state "RESOLVED"

  unfoldable pub gitlab_resolved_at : String → Option (Option ℤ) → Option (Option ℤ) → ℤ
  gitlab_resolved_at state resolved_at dismissed_at =
      if is_resolved state
      then first_date resolved_at dismissed_at
      else first_date dismissed_at resolved_at

  unfoldable pub gitlab_state : String → String
  gitlab_state state = if is_resolved state then state_resolved else state_dismissed

  unfoldable pub gitlab_resolution : String → String → String
  gitlab_resolution state reason =
      let r = to_lower (trim_space reason) in
      if is_resolved state
      then resolution_fixed
      else if r == "false_positive" || (r == "used_in_tests" || r == "not_applicable")
      then resolution_dismissed_not_a_risk
      else resolution_dismissed_accepted_risk

  unfoldable pub resolved_vulnerability : String → ResolvedVulnerability → ResolvedFinding
  unfolding gitlab_resolved_at
  resolved_vulnerability category n = record {
    id = n.id;
    category = category;
    severity = normalize_severity n.severity;
    state = gitlab_state n.state;
    resolution = gitlab_resolution n.state (deref n.dismissal_reason);
    created_at = parse_gitlab_time n.detected_at;
    resolved_at = gitlab_resolved_at n.state n.resolved_at n.dismissed_at;
  }

  -- A node of a report type that is not counted, or resolved before the window, is left out.
  unfoldable pub recent_vulnerability : ℤ → ResolvedVulnerability → Option ResolvedFinding
  unfolding category_of
  recent_vulnerability since n = elim (category_of n.report_type) [
    | none ↦ none
    | some category ↦
        let f = resolved_vulnerability category n in
        if ltb_ℤ f.resolved_at since then none else some f
  ]

  unfoldable pub add_resolved :
      ℤ → List ResolvedFinding → List ResolvedVulnerability → List ResolvedFinding
  unfolding recent_vulnerability
  add_resolved since out [] = out
  add_resolved since out (n ∷ ns) = elim (recent_vulnerability since n) [
    | none ↦ add_resolved since out ns
    | some f ↦ add_resolved since (out ++ f ∷ []) ns
  ]

  unfoldable pub collect_resolved_findings :
      ℤ → (Option String → Posted (Envelope ResolvedVulnerability)) → Result (List ResolvedFinding)
  unfolding graphql_pages add_resolved
  collect_resolved_findings since query =
      let s = graphql_pages (add_resolved since) none query default_max_pages none [] none in
      elim s.error [ some e ↦ err e | none ↦ ok s.result ]
