-- ===== src/GitLab/Whole.antt =====
-- The snapshot of one project, from the answers of the APIs.
use mathlib.Core.List.{append_assoc, append-nil}
use scm_metrics_exporter.Prelude.{
  ◌+◌, String, ◌≡◌, refl, sym, ap, ◌∙◌, inl, inr, Bool, true, false, Option, none, some, List, [],
  ◌∷◌, ◌++◌, length, Option-cases, arith,
}
use scm_metrics_exporter.Prelude.Int.{ℤ}
use scm_metrics_exporter.Prelude.Errors.{Result, ok, err, Gives, guarded}
use scm_metrics_exporter.Prelude.Sort.{sort}
use scm_metrics_exporter.Prelude.Text.{Unicode}
use scm_metrics_exporter.Provider.{Finding, RepoMetrics, Snapshot, WorkflowRunStat, ResolvedFinding}
use scm_metrics_exporter.Provider.Merge.{finding_le}
use scm_metrics_exporter.Provider.Sources.{add_workflows, add_lifecycle}
use scm_metrics_exporter.GitLab.{default_max_pages}
use scm_metrics_exporter.GitLab.Pages.{
  IgnoresPages, rest_items, rest_pages-result, graphql_items, graphql_pages-result,
  length-IgnoresPages,
}
use scm_metrics_exporter.GitLab.Rest.{page_at}
use scm_metrics_exporter.GitLab.Graphql.{Vulnerability, vulnerability_finding, ask, post}
use scm_metrics_exporter.GitLab.Repo.{
  project_mrs_path, collect_repo_mrs, add_vulnerabilities, collect_repo_vulnerabilities,
  collect_repo_posture,
}
use scm_metrics_exporter.GitLab.Collect.{
  Answers, Settings, error_of, all_failed, posture_of, base_snapshot, pipeline_runs,
  resolved_findings, snapshot_repo,
}

-- What a supplementary source gives: nothing if it is not collected or if it failed.
abbrev pub collected : {A : Type 0} → Bool → Result (List A) → List A
collected true (ok xs) = xs
collected true (err e) = []
collected false r = []

abbrev with_runs : List WorkflowRunStat → RepoMetrics → RepoMetrics
with_runs runs r = record r { workflow_runs = runs }

abbrev with_resolved : List ResolvedFinding → RepoMetrics → RepoMetrics
with_resolved fs r = record r { resolved_findings = fs }

add_workflows-repos :
    (collect : Bool) (runs : Result (List WorkflowRunStat)) (s : Snapshot) (r : RepoMetrics)
    → s.repos ≡ with_runs [] r ∷ []
    → (add_workflows collect runs s).repos ≡ with_runs (collected collect runs) r ∷ []
unfolding add_workflows
add_workflows-repos false runs s r h = h
add_workflows-repos true (err e) s r h = h
add_workflows-repos true (ok a) s r h = rw h refl

add_lifecycle-repos :
    (collect : Bool) (fs : Result (List ResolvedFinding)) (s : Snapshot) (r : RepoMetrics)
    → s.repos ≡ with_resolved [] r ∷ []
    → (add_lifecycle collect fs s).repos ≡ with_resolved (collected collect fs) r ∷ []
unfolding add_lifecycle
add_lifecycle-repos false fs s r h = h
add_lifecycle-repos true (err e) s r h = h
add_lifecycle-repos true (ok a) s r h = rw h refl

module _ ⦃u : Unicode⦄ where
  abbrev counted_finding : Option Finding → List Finding
  counted_finding none = []
  counted_finding (some f) = f ∷ []

  -- The findings of the vulnerabilities whose report type is counted, in order.
  abbrev pub findings_in : List Vulnerability → List Finding
  findings_in [] = []
  findings_in (v ∷ vs) = counted_finding (vulnerability_finding v) ++ findings_in vs

  add_vulnerabilities-findings :
      (fs : List Finding) (vs : List Vulnerability)
      → add_vulnerabilities fs vs ≡ fs ++ findings_in vs
  unfolding add_vulnerabilities
  add_vulnerabilities-findings fs [] = sym (append-nil fs)
  add_vulnerabilities-findings fs (v ∷ vs) = elim (Option-cases (vulnerability_finding v)) [
    | inl e ↦ rw (e, add_vulnerabilities) (add_vulnerabilities-findings fs vs)
    | inr (f, e) ↦
        rw (e, add_vulnerabilities)
          (add_vulnerabilities-findings (fs ++ f ∷ []) vs
            ∙ append_assoc fs (f ∷ []) (findings_in vs))
  ]

  findings_in-append :
      (xs ys : List Vulnerability) → findings_in xs ++ findings_in ys ≡ findings_in (xs ++ ys)
  findings_in-append [] ys = refl
  findings_in-append (x ∷ xs) ys =
      append_assoc (counted_finding (vulnerability_finding x)) (findings_in xs) (findings_in ys)
      ∙ ap (λ fs. counted_finding (vulnerability_finding x) ++ fs) (findings_in-append xs ys)

  add_vulnerabilities-IgnoresPages : IgnoresPages add_vulnerabilities
  add_vulnerabilities-IgnoresPages = (
    λ fs. add_vulnerabilities-findings fs [] ∙ append-nil fs,
    λ fs xs ys.
        add_vulnerabilities-findings (add_vulnerabilities fs xs) ys
        ∙ ap (λ gs. gs ++ findings_in ys) (add_vulnerabilities-findings fs xs)
        ∙ append_assoc fs (findings_in xs) (findings_in ys)
        ∙ ap (λ gs. fs ++ gs) (findings_in-append xs ys)
        ∙ sym (add_vulnerabilities-findings fs (xs ++ ys)),
  )

module _ ⦃u : Unicode⦄ (p : Settings) (answers : Answers) where
  -- What the pages of the APIs list of a project.
  abbrev pub open_mrs_read : String → List ℤ
  open_mrs_read repo =
      rest_items answers.merge_requests (page_at answers.http (project_mrs_path repo))
        default_max_pages "1"

  abbrev pub vulnerabilities_read : List Vulnerability
  vulnerabilities_read = graphql_items (ask answers.vulnerabilities) default_max_pages none

  abbrev pub whole_project : String → RepoMetrics
  whole_project repo = record {
    name = repo;
    open_review_items = length (open_mrs_read repo);
    findings = sort finding_le (findings_in vulnerabilities_read);
    posture =
        posture_of (collect_repo_posture (post answers.decode_posture answers.posture)).answer;
    workflow_runs = collected p.collect_workflows (pipeline_runs p answers repo);
    resolved_findings = collected p.collect_lifecycle (resolved_findings p answers);
  }

  mrs-read :
      (repo : String)
      → (collect_repo_mrs answers.http answers.merge_requests repo).result
        ≡ length (open_mrs_read repo)
  unfolding collect_repo_mrs
  mrs-read repo =
      rest_pages-result (λ n mrs. n + length mrs) answers.merge_requests
        (page_at answers.http (project_mrs_path repo)) default_max_pages "1" 0 none
        length-IgnoresPages
      ∙ omega arith

  vulnerabilities-read :
      (collect_repo_vulnerabilities (ask answers.vulnerabilities)).result
      ≡ findings_in vulnerabilities_read
  unfolding collect_repo_vulnerabilities
  vulnerabilities-read =
      graphql_pages-result add_vulnerabilities _ (ask answers.vulnerabilities) default_max_pages
        none [] none add_vulnerabilities-IgnoresPages
      ∙ add_vulnerabilities-findings [] vulnerabilities_read

  -- The snapshot of a project, if it is collected, has one row: the number of the open merge
  -- requests and the findings of the vulnerabilities on the pages that were read, the findings in
  -- the order of sortFindings, the posture unless it failed, and the pipelines and the resolved
  -- findings if they are collected and did not fail.
  pub snapshot_project-IsWhole :
      (repo : String)
      → Gives (λ s. s.repos ≡ whole_project repo ∷ []) (snapshot_repo p answers repo)
  unfolding snapshot_repo base_snapshot
  snapshot_project-IsWhole repo =
      let mrs = collect_repo_mrs answers.http answers.merge_requests repo in
      let vulns = collect_repo_vulnerabilities (ask answers.vulnerabilities) in
      let posture = collect_repo_posture (post answers.decode_posture answers.posture) in
      let base = base_snapshot repo mrs vulns posture in
      let runs = pipeline_runs p answers repo in
      let row = record (whole_project repo) { workflow_runs = []; resolved_findings = [] } in
      let base-row : base.repos ≡ row ∷ [] =
        ap (λ n. record row { open_review_items = n; findings = sort finding_le vulns.result } ∷ [])
          (mrs-read repo)
        ∙ ap (λ fs. record row { findings = sort finding_le fs } ∷ []) vulnerabilities-read in
      let with-runs = add_workflows-repos p.collect_workflows runs base row base-row in
      (guarded _ (all_failed mrs.error vulns.error (error_of posture.answer)) _ (
        add_lifecycle-repos p.collect_lifecycle (resolved_findings p answers)
          (add_workflows p.collect_workflows runs base)
          (with_runs (collected p.collect_workflows runs) row) with-runs)).1
