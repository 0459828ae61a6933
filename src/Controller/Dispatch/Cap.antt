-- ===== src/Controller/Dispatch/Cap.antt =====
-- The cap on active Jobs of `dispatchJobs` in internal/controller/common.go.
use scm_metrics_exporter.Prelude.{
  ℕ, ◌+◌, ◌≤◌, String, ◌≡◌, refl, ◌⊎◌, Bool, true, false, ◌&&◌, Option, List, [], map, count,
  contains, All, string_eq,
}
use scm_metrics_exporter.Prelude.Int.{ℤ, pos, ◌≤ℤ◌, ◌+ℤ◌}
use scm_metrics_exporter.Prelude.Errors.{Error, Result, ok, err}
use scm_metrics_exporter.Controller.Cluster.{
  Cluster, IsCluster, listing, is_active, selects, exists_key,
}
use scm_metrics_exporter.Controller.Render.{Job, selector_labels}
use scm_metrics_exporter.Controller.Dispatch.{dispatch_loop, dispatch_jobs}
use scm_metrics_exporter.Controller.Dispatch.Loop.{
  live, Dispatched, stopped, dispatch_loop-Dispatched,
}

-- What the list of a resource's Jobs shows: how many are active, and their names.
abbrev pub shown_active : (c : Cluster) → (cr_name namespace : String) → c.State → ℕ
shown_active c cr_name namespace s =
    count is_active (listing c namespace (selector_labels cr_name) s)

abbrev pub shown_names : (c : Cluster) → (cr_name namespace : String) → c.State → List String
shown_names c cr_name namespace s =
    map (λ j. j.name) (listing c namespace (selector_labels cr_name) s)

module _ (c : Cluster) (l : IsCluster c) (set_owner : Job → Option Error) (job_for : String → Job)
    (parallelism : ℤ) (cr_name namespace : String)
    (ours : (repo : String)
      → (selects namespace (selector_labels cr_name) (job_for repo) && is_active (job_for repo))
        ≡ true) where
  open c use {State, list_jobs, create, jobs}

  dispatch_jobs-Dispatched :
      (repos : List String) (s : State)
      → let (res, s') = dispatch_jobs c set_owner job_for parallelism cr_name namespace repos s in
        Dispatched c l set_owner job_for parallelism cr_name namespace ours repos
          (shown_names c cr_name namespace s)
          (shown_active c cr_name namespace s)
          s
          res
          s'
  unfolding dispatch_jobs
  dispatch_jobs-Dispatched repos s = go (list_jobs namespace (selector_labels cr_name) s)
    where
      go :
          (x : Result (List Job))
          → let js : List Job = elim x [ err e ↦ [] | ok js ↦ js ] in
            let (res, s') : Result Bool × State = elim x [
              | err e ↦ (err e, s)
              | ok js ↦
                  dispatch_loop c set_owner job_for parallelism repos
                    (map (λ j. j.name) js)
                    (count is_active js)
                    s
            ] in
            Dispatched c l set_owner job_for parallelism cr_name namespace ours repos
              (map (λ j. j.name) js)
              (count is_active js)
              s
              res
              s'
      go (err e) =
          stopped c l set_owner job_for parallelism cr_name namespace ours repos [] 0 s s e refl
      go (ok js) =
          dispatch_loop-Dispatched c l set_owner job_for parallelism cr_name namespace ours repos
            (map (λ j. j.name) js) (count is_active js) s

  -- Whatever a list of Jobs shows, a dispatch adds at most as many active Jobs of its custom resource
  -- as the parallelism leaves over the active Jobs that the list shows, and none if it leaves none: the
  -- new number with the shown one is at most the parallelism with the old number. This holds if each
  -- Job for a repository is active and carries the resource's labels.
  pub dispatch_jobs_cap :
      (repos : List String) (s : State)
      → let s' = (dispatch_jobs c set_owner job_for parallelism cr_name namespace repos s).1 in
        (live c cr_name namespace s' ≤ live c cr_name namespace s)
        ⊎ (pos (live c cr_name namespace s' + shown_active c cr_name namespace s)
            ≤ℤ parallelism +ℤ pos (live c cr_name namespace s))
  dispatch_jobs_cap repos s = (dispatch_jobs-Dispatched repos s).capped

  -- If a dispatch reports that nothing is pending, then for every repository the name of its Job was
  -- among the names that the list showed, or the namespace has a Job of that name. The Job may be that
  -- of another repository, if two have the same name.
  pub dispatch_jobs_complete :
      (repos : List String) (s : State)
      → (dispatch_jobs c set_owner job_for parallelism cr_name namespace repos s).0 ≡ ok false
      → let s' = (dispatch_jobs c set_owner job_for parallelism cr_name namespace repos s).1 in
        All
          (λ repo.
            (contains (shown_names c cr_name namespace s) (job_for repo).name ≡ true)
            ⊎ (exists_key (job_for repo) (jobs s') ≡ true))
          repos
  dispatch_jobs_complete repos s = (dispatch_jobs-Dispatched repos s).complete

  -- If a dispatch reports that repositories are pending, the new number of active Jobs with the shown
  -- one is at least the parallelism with the old number.
  pub dispatch_jobs_full :
      (repos : List String) (s : State)
      → (dispatch_jobs c set_owner job_for parallelism cr_name namespace repos s).0 ≡ ok true
      → let s' = (dispatch_jobs c set_owner job_for parallelism cr_name namespace repos s).1 in
        parallelism +ℤ pos (live c cr_name namespace s)
        ≤ℤ pos (live c cr_name namespace s' + shown_active c cr_name namespace s)
  dispatch_jobs_full repos s = (dispatch_jobs-Dispatched repos s).full
