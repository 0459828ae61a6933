-- ===== src/Lifecycle.antt =====
-- internal/lifecycle/record.go: the pass that records a snapshot's resolved findings in the store.
pub mod Observations
pub mod Settled
use scm_metrics_exporter.Prelude.{
  String, Bool, ◌||◌, Option, none, some, List, [], ◌∷◌, ◌++◌, if◌then◌else◌, ◌==◌, string_eq,
}
use scm_metrics_exporter.Prelude.Int.{ℤ, pos, leb_ℤ, is_zero, sub_time}
use scm_metrics_exporter.Prelude.Errors.{Error, Result, ok, err, join_errors}
use scm_metrics_exporter.Provider.{RepoMetrics, ResolvedFinding, Snapshot}
use scm_metrics_exporter.Provider.Scope.{remediation_scope}

-- The port that the pass needs: `record_if_new scope id duration window`.
pub record RecordStore : Type 1 where
  pub State : Type 0
  pub record_if_new : String → String → ℤ → ℤ → State → Result Bool × State

-- The remediation time of a finding, unless the pass skips it.
unfoldable pub duration_of : ResolvedFinding → Option ℤ
duration_of rf =
    let duration = sub_time rf.resolved_at rf.created_at in
    if (rf.id == "" || rf.resolution == "") || is_zero rf.created_at
    then none
    else if leb_ℤ duration (pos 0)
    then none
    else some duration

unfoldable pub scope_of : String → Bool → String → ResolvedFinding → String
scope_of provider_name include_severity repo rf = remediation_scope (record {
  provider_name = provider_name;
  repo = repo;
  category = rf.category;
  resolution = rf.resolution;
  severity = if include_severity then rf.severity else "";
})

-- The error of a call, as a list of none or one.
abbrev pub error_of {ℓ} : {A : Type ℓ} → Result A → List Error
error_of (ok _) = []
error_of (err e) = e ∷ []

module _ (st : RecordStore) (provider_name : String) (window : ℤ) (include_severity : Bool) where
  open st use {State, record_if_new}

  -- The rest of a round of the inner loop, once the finding is accepted or skipped.
  abbrev pub record_at : String → ResolvedFinding → Option ℤ → State → List Error × State
  record_at repo rf none s = ([], s)
  record_at repo rf (some duration) s =
      let (res, s) =
        record_if_new (scope_of provider_name include_severity repo rf) rf.id duration window s in
      (error_of res, s)

  unfoldable pub record_finding : String → ResolvedFinding → State → List Error × State
  record_finding repo rf s = record_at repo rf (duration_of rf) s

  unfoldable pub record_repo : String → List ResolvedFinding → State → List Error × State
  record_repo repo [] s = ([], s)
  record_repo repo (rf ∷ rfs) s =
      let (errs, s) = record_finding repo rf s in
      let (more, s) = record_repo repo rfs s in (errs ++ more, s)

  unfoldable pub record_repos : List RepoMetrics → State → List Error × State
  record_repos [] s = ([], s)
  record_repos (repo ∷ repos) s =
      let (errs, s) = record_repo repo.name repo.resolved_findings s in
      let (more, s) = record_repos repos s in (errs ++ more, s)

  unfoldable pub record_snapshot : Snapshot → State → Option Error × State
  record_snapshot snap s = let (errs, s) = record_repos snap.repos s in (join_errors errs, s)
