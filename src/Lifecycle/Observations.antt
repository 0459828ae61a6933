-- ===== src/Lifecycle/Observations.antt =====
-- The pass of internal/lifecycle/record.go as one sequence of calls.
use mathlib.Core.List.{append_assoc, append-nil}
use scm_metrics_exporter.Prelude.{
  String, ◌≡◌, refl, ap, sym, Bool, none, some, Option, List, [], ◌∷◌, ◌++◌,
}
use scm_metrics_exporter.Prelude.Int.{ℤ}
use scm_metrics_exporter.Prelude.Errors.{Error}
use scm_metrics_exporter.Provider.{RepoMetrics, ResolvedFinding}
use scm_metrics_exporter.Lifecycle.{
  RecordStore, duration_of, scope_of, error_of, record_at, record_finding, record_repo,
  record_repos,
}

-- What is recorded of a finding.
pub record Observation : Type 0 where
  pub scope : String
  pub id : String
  pub duration : ℤ

module _ (provider_name : String) (include_severity : Bool) where
  abbrev pub observation_at : String → ResolvedFinding → Option ℤ → List Observation
  observation_at repo rf none = []
  observation_at repo rf (some duration) =
      record {
        scope = scope_of provider_name include_severity repo rf;
        id = rf.id;
        duration = duration;
      }
      ∷ []

  abbrev pub observations_of : String → ResolvedFinding → List Observation
  observations_of repo rf = observation_at repo rf (duration_of rf)

  abbrev pub repo_observations : String → List ResolvedFinding → List Observation
  repo_observations repo [] = []
  repo_observations repo (rf ∷ rfs) = observations_of repo rf ++ repo_observations repo rfs

  unfoldable pub observations : List RepoMetrics → List Observation
  observations [] = []
  observations (repo ∷ repos) =
      repo_observations repo.name repo.resolved_findings ++ observations repos

module _ (st : RecordStore) (window : ℤ) where
  open st use {State, record_if_new}

  unfoldable pub calls : List Observation → State → List Error × State
  calls [] s = ([], s)
  calls (o ∷ os) s =
      let (res, s) = record_if_new o.scope o.id o.duration window s in
      let (more, s) = calls os s in (error_of res ++ more, s)

  -- Calls in two parts.
  calls-append :
      (xs ys : List Observation) (s : State)
      → calls (xs ++ ys) s
        ≡ ((calls xs s).0 ++ (calls ys (calls xs s).1).0, (calls ys (calls xs s).1).1)
  unfolding calls
  calls-append [] ys s = refl
  calls-append (x ∷ xs) ys s =
      rw (calls-append xs ys (record_if_new x.scope x.id x.duration window s).1) (
        ap (λ e. (e, (calls ys (calls xs (record_if_new x.scope x.id x.duration window s).1).1).1))
          (sym (append_assoc (error_of (record_if_new x.scope x.id x.duration window s).0) _ _)))

  module _ (provider_name : String) (include_severity : Bool) where
    abbrev obs : String → List ResolvedFinding → List Observation
    obs = repo_observations provider_name include_severity

    record_finding-calls :
        (repo : String) (rf : ResolvedFinding) (s : State)
        → record_finding st provider_name window include_severity repo rf s
          ≡ calls (observations_of provider_name include_severity repo rf) s
    unfolding record_finding calls
    record_finding-calls repo rf s = go (duration_of rf)
      where
        go :
            (o : Option ℤ)
            → record_at st provider_name window include_severity repo rf o s
              ≡ calls (observation_at provider_name include_severity repo rf o) s
        go none = refl
        go (some d) =
            ap
              (λ x. (
                x,
                (record_if_new (scope_of provider_name include_severity repo rf) rf.id d window
                    s).1,
              ))
              (sym (append-nil _))

    record_repo-calls :
        (repo : String) (rfs : List ResolvedFinding) (s : State)
        → record_repo st provider_name window include_severity repo rfs s ≡ calls (obs repo rfs) s
    unfolding record_repo
    record_repo-calls repo [] s = unfold calls in refl
    record_repo-calls repo (rf ∷ rfs) s =
        rw (calls-append (observations_of provider_name include_severity repo rf) (obs repo rfs) s)
          (rw (record_finding-calls repo rf s) (rw (record_repo-calls repo rfs _) refl))

    pub record_repos-calls :
        (repos : List RepoMetrics) (s : State)
        → record_repos st provider_name window include_severity repos s
          ≡ calls (observations provider_name include_severity repos) s
    unfolding record_repos observations
    record_repos-calls [] s = unfold calls in refl
    record_repos-calls (repo ∷ repos) s =
        rw
          (calls-append (obs repo.name repo.resolved_findings)
            (observations provider_name include_severity repos) s)
          (rw (record_repo-calls repo.name repo.resolved_findings s)
            (rw (record_repos-calls repos _) refl))
