-- ===== src/Provider/Sources.antt =====
-- What SnapshotRepo of internal/provider/github and of internal/provider/gitlab share: rate readings,
-- source errors, and the supplementary sources, workflow runs and resolved findings.
use mathlib.Core.List.{append_assoc, append-nil}
use scm_metrics_exporter.Prelude.{
  String, ◌≡◌, refl, sym, ap, ◌∙◌, Bool, true, false, ◌&&◌, Option, none, some, List, [], ◌∷◌, ◌++◌,
  if◌then◌else◌,
}
use scm_metrics_exporter.Prelude.Int.{ℤ}
use scm_metrics_exporter.Prelude.Errors.{Result, ok, err, failed}
use scm_metrics_exporter.Provider.{
  RepoMetrics, RateLimit, SourceError, Snapshot, WorkflowRunStat, ResolvedFinding, source_workflows,
  source_lifecycle,
}

abbrev pub reading : String → Option ℤ → List RateLimit
reading resource none = []
reading resource (some n) = record { resource = resource; remaining = n } ∷ []

-- A source error if its source failed.
abbrev pub source_error : Bool → String → List SourceError
source_error true source = record { source = source } ∷ []
source_error false source = []

abbrev pub on_first : (RepoMetrics → RepoMetrics) → List RepoMetrics → List RepoMetrics
on_first f [] = []
on_first f (r ∷ rs) = f r ∷ rs

-- A supplementary source: an error is recorded, a result goes into the first repository.
abbrev supplement {ℓ} :
    {A : Type ℓ} → String → (A → RepoMetrics → RepoMetrics) → Result A → Snapshot → Snapshot
supplement source set (err e) s = record s {
  source_errors = s.source_errors ++ source_error true source;
}
supplement source set (ok a) s = record s { repos = on_first (set a) s.repos }

unfoldable pub add_workflows : Bool → Result (List WorkflowRunStat) → Snapshot → Snapshot
add_workflows collect stats s =
    if collect
    then supplement source_workflows (λ runs r. record r { workflow_runs = runs }) stats s
    else s

unfoldable pub add_lifecycle : Bool → Result (List ResolvedFinding) → Snapshot → Snapshot
add_lifecycle collect resolved s =
    if collect
    then supplement source_lifecycle (λ fs r. record r { resolved_findings = fs }) resolved s
    else s

add_workflows-errors :
    (collect : Bool) (stats : Result (List WorkflowRunStat)) (s : Snapshot)
    → (add_workflows collect stats s).source_errors
      ≡ s.source_errors ++ source_error (collect && failed stats) source_workflows
unfolding add_workflows
add_workflows-errors false stats s = sym (append-nil s.source_errors)
add_workflows-errors true (ok a) s = sym (append-nil s.source_errors)
add_workflows-errors true (err e) s = refl

add_lifecycle-errors :
    (collect : Bool) (fs : Result (List ResolvedFinding)) (s : Snapshot)
    → (add_lifecycle collect fs s).source_errors
      ≡ s.source_errors ++ source_error (collect && failed fs) source_lifecycle
unfolding add_lifecycle
add_lifecycle-errors false fs s = sym (append-nil s.source_errors)
add_lifecycle-errors true (ok a) s = sym (append-nil s.source_errors)
add_lifecycle-errors true (err e) s = refl

pub supplemented-errors :
    (w l : Bool) (runs : Result (List WorkflowRunStat)) (fs : Result (List ResolvedFinding))
    (s : Snapshot)
    → (add_lifecycle l fs (add_workflows w runs s)).source_errors
      ≡ s.source_errors
        ++ (source_error (w && failed runs) source_workflows
            ++ source_error (l && failed fs) source_lifecycle)
supplemented-errors w l runs fs s =
    add_lifecycle-errors l fs (add_workflows w runs s)
    ∙ ap (λ es. es ++ source_error (l && failed fs) source_lifecycle)
        (add_workflows-errors w runs s)
    ∙ append_assoc s.source_errors (source_error (w && failed runs) source_workflows)
        (source_error (l && failed fs) source_lifecycle)
