-- ===== src/Controller/Reconcile/Outcomes.antt =====
-- What the reconcilers of internal/controller do on each outcome of a pass.
use scm_metrics_exporter.Prelude.{
  ℕ, ◌+◌, ◌≤◌, All, contains, String, ◌≡◌, refl, subst, ◌⊎◌, inl, inr, Bool, true, false, ◌&&◌,
  count, Option, List, if◌then◌else◌, ◌==◌, string_eq, arith,
}
use scm_metrics_exporter.Prelude.Int.{ℤ, pos, ◌≤ℤ◌, ◌+ℤ◌}
use scm_metrics_exporter.Prelude.Errors.{Error, Result, ok, err}
use scm_metrics_exporter.Api.{Resource, Fetched}
use scm_metrics_exporter.Controller.Common.{pending_requeue, credential_requeue}
use scm_metrics_exporter.Controller.Cluster.{Cluster, IsCluster, exists_key, selects, is_active}
use scm_metrics_exporter.Controller.Render.{Job, selector_labels}
use scm_metrics_exporter.Controller.Dispatch.{dispatch_jobs}
use scm_metrics_exporter.Controller.Dispatch.Cap.{shown_active, shown_names, dispatch_jobs_cap}
use scm_metrics_exporter.Controller.Reconcile.{
  Kind, update_status, set_ready, dispatch, reconcile_cr,
}
use scm_metrics_exporter.Controller.Reconcile.Branches.{Same, branches}

-- The active Jobs of a resource.
abbrev pub active_jobs : {S : Type 0} → Resource S → List Job → ℕ
active_jobs cr js = count (λ j. selects cr.namespace (selector_labels cr.name) j && is_active j) js

abbrev pub image_for : {S A : Type 0} → Kind S A → String → Resource S → String
image_for k exporter_image cr =
    if (k.exporter cr.spec).image == "" then exporter_image else (k.exporter cr.spec).image

module _ {S A : Type 0} (c : Cluster) (set_owner : Job → Option Error) (k : Kind S A)
    (exporter_image : String) (get_cr : c.State → Fetched (Resource S))
    (update_cr : Resource S → c.State → Option Error × c.State) (now : ℤ) where
  open c use {State, get_secret, jobs}

  abbrev finish : Resource S → ℤ → State → Result ℤ × State
  finish = update_status c set_owner k exporter_image get_cr update_cr now

  abbrev dispatched : Resource S → State → Result ℤ × State
  dispatched = dispatch c set_owner k exporter_image get_cr update_cr now

  abbrev image_of : Resource S → String
  image_of cr = image_for k exporter_image cr

  -- The outcome of the Jobs' dispatch for a resource.
  abbrev jobs_of : Resource S → State → Result Bool × State
  jobs_of cr s =
      dispatch_jobs c set_owner (k.job cr (image_of cr)) (k.exporter cr.spec).parallelism cr.name
        cr.namespace cr.status.discovered_repositories s

  abbrev Allowed : Resource S → State → ℤ → Type 0
  Allowed cr s q =
      (pending_requeue ≤ℤ q)
      ⊎ ((q ≡ (k.exporter cr.spec).discovery_interval) × ((jobs_of cr s).0 ≡ ok false))

  dispatch-branches :
      (Q : Result ℤ × State → Type 0) (cr : Resource S) (s : State)
      → ((cr' : Resource S) (q : ℤ) → Allowed cr s q → Q (finish cr' q (jobs_of cr s).1))
      → Q (dispatched cr s)
  unfolding dispatch
  dispatch-branches Q cr s ends = go (jobs_of cr s).0 refl
    where
      go :
          (x : Result Bool)
          → (jobs_of cr s).0 ≡ x
          → Q (elim x [
            | err e ↦
                finish
                  (set_ready c set_owner k exporter_image get_cr update_cr now false
                    "DispatchFailed" cr)
                  credential_requeue
                  (jobs_of cr s).1
            | ok pending ↦
                finish
                  (set_ready c set_owner k exporter_image get_cr update_cr now true "Discovered" cr)
                  (if pending then pending_requeue else (k.exporter cr.spec).discovery_interval)
                  (jobs_of cr s).1
          ])
      go (err e) h = ends _ credential_requeue (inl (omega arith))
      go (ok true) h = ends _ pending_requeue (inl (omega arith))
      go (ok false) h = ends _ (k.exporter cr.spec).discovery_interval (inr (refl, h))

  -- The resource, with some status that the pass may give it, has no repository without a Job: the
  -- name of its Job was among the names that the list showed, or is that of a Job there is.
  abbrev pub Settled : Resource S → State → List Job → Type 0
  Settled cr s js =
      (cr' : Resource S) × Same c set_owner k exporter_image get_cr update_cr now cr cr'
      × All
          (λ repo.
            (contains (shown_names c cr'.name cr'.namespace s)
                (k.job cr' (image_for k exporter_image cr') repo).name
              ≡ true)
            ⊎ (exists_key (k.job cr' (image_for k exporter_image cr') repo) js ≡ true))
          cr'.status.discovered_repositories

  module _ (l : IsCluster c)
      (writes_status : (cr : Resource S) (s : State) → jobs (update_cr cr s).1 ≡ jobs s)
      (ours : (cr : Resource S) (image repo : String)
        → (selects cr.namespace (selector_labels cr.name) (k.job cr image repo)
            && is_active (k.job cr image repo))
          ≡ true) where
    jobs-finish : (cr : Resource S) (q : ℤ) (s : State) → jobs (finish cr q s).1 ≡ jobs s
    unfolding update_status
    jobs-finish cr q s = writes_status _ s

    -- Whatever a list of Jobs shows, a pass over a resource adds at most as many active Jobs as its
    -- parallelism leaves over the active Jobs that the list shows, and none if it leaves none: the new
    -- number with the shown one is at most the parallelism with the old number. This holds if a status
    -- update changes no Job, and the Jobs that are rendered are active and carry the resource's labels.
    pub reconcile_cr_cap :
        (cr : Resource S) (s : State)
        → let after =
            jobs (reconcile_cr c set_owner k exporter_image get_cr update_cr now cr s).1 in
          (active_jobs cr after ≤ active_jobs cr (jobs s))
          ⊎ (pos (active_jobs cr after + shown_active c cr.name cr.namespace s)
              ≤ℤ (k.exporter cr.spec).parallelism +ℤ pos (active_jobs cr (jobs s)))
    reconcile_cr_cap cr s =
        branches c set_owner k exporter_image get_cr update_cr now
          (λ r. Capped cr.name cr.namespace cr.spec (jobs r.1)) cr s
          (λ cr' q h. rw (jobs-finish cr' q s) (inl (omega arith)))
          (λ cr' h.
            dispatch-branches (λ r. Capped cr.name cr.namespace cr.spec (jobs r.1)) cr' s
              (λ cr'' q a. rw (jobs-finish cr'' q _) (
                subst (λ x. Capped x cr.namespace cr.spec (jobs (jobs_of cr' s).1)) h.0
                  (subst (λ x. Capped cr'.name x cr.spec (jobs (jobs_of cr' s).1)) h.1
                    (subst (λ x. Capped cr'.name cr'.namespace x (jobs (jobs_of cr' s).1)) h.2
                      (dispatch_jobs_cap c l set_owner (k.job cr' (image_of cr'))
                        (k.exporter cr'.spec).parallelism cr'.name cr'.namespace
                        (ours cr' (image_of cr')) cr'.status.discovered_repositories s))))))
      where
        Capped : String → String → S → List Job → Type 0
        Capped name namespace spec js =
            let n = λ (js : List Job).
              count (λ j. selects namespace (selector_labels name) j && is_active j) js in
            (n js ≤ n (jobs s))
            ⊎ (pos (n js + shown_active c name namespace s)
                ≤ℤ (k.exporter spec).parallelism +ℤ pos (n (jobs s)))
