-- ===== src/Controller/Dispatch.antt =====
-- `dispatchJobs` of internal/controller/common.go.
pub mod Loop
pub mod Cap
use scm_metrics_exporter.Prelude.{
  ℕ, ◌+◌, String, Bool, true, false, Option, none, some, List, [], ◌∷◌, map, count, contains,
  if◌then◌else◌, ◌==◌, string_eq,
}
use scm_metrics_exporter.Prelude.Int.{ℤ, pos, leb_ℤ}
use scm_metrics_exporter.Prelude.Errors.{Error, Result, ok, err}
use scm_metrics_exporter.Controller.Cluster.{
  Cluster, Created, created, already_exists, create_failed, is_active,
}
use scm_metrics_exporter.Controller.Render.{Job, selector_labels}

-- `set_owner` is controllerutil.SetControllerReference: it fails or succeeds.
module _ (c : Cluster) (set_owner : Job → Option Error) (job_for : String → Job)
    (parallelism : ℤ) where
  open c use {State, list_jobs, create}

  -- The loop over the repositories, with the names that were listed and the count of active Jobs.
  unfoldable pub dispatch_loop : List String → List String → ℕ → State → Result Bool × State
  dispatch_loop [] existing active s = (ok false, s)
  dispatch_loop (repo ∷ repos) existing active s =
      let job = job_for repo in
      elim (contains existing job.name) [
        | true ↦ dispatch_loop repos existing active s
        | false ↦ elim (leb_ℤ parallelism (pos active)) [
          | true ↦ (ok true, s)
          | false ↦ elim (set_owner job) [
            | some e ↦ (err e, s)
            | none ↦ elim (create job s).0 [
              | created ↦ dispatch_loop repos existing (active + 1) (create job s).1
              | already_exists ↦ dispatch_loop repos existing active (create job s).1
              | create_failed e ↦ (err e, (create job s).1)
            ]
          ]
        ]
      ]

  unfoldable pub dispatch_jobs : String → String → List String → State → Result Bool × State
  dispatch_jobs cr_name namespace repos s = elim (list_jobs namespace (selector_labels cr_name) s) [
    | err e ↦ (err e, s)
    | ok js ↦ dispatch_loop repos (map (λ j. j.name) js) (count is_active js) s
  ]
