-- ===== src/Controller/Reconcile/Branches.antt =====
-- The branches of a pass of internal/controller, up to the dispatch of Jobs.
use scm_metrics_exporter.Prelude.{
  String, ◌≡◌, refl, subst, ◌⊎◌, inl, inr, Bool, true, false, not, ◌||◌, length, Option, none, some,
  List, if◌then◌else◌, string_eq, Bool-cases, arith,
}
use scm_metrics_exporter.Prelude.Int.{ℤ, pos, ◌≤ℤ◌, leb_ℤ}
use scm_metrics_exporter.Prelude.Errors.{ok_inj, Error, Result, ok, err}
use scm_metrics_exporter.Api.{Resource, Fetched}
use scm_metrics_exporter.Discovery.{Budget}
use scm_metrics_exporter.Controller.Common.{
  rate_limited, pending_requeue, credential_requeue, needs_discovery, selector_from,
}
use scm_metrics_exporter.Controller.Cluster.{Cluster}
use scm_metrics_exporter.Controller.Render.{Job}
use scm_metrics_exporter.Controller.Reconcile.{
  Kind, update_status, set_ready, discovered, dispatch, after_auth, reconcile_cr,
}
use scm_metrics_exporter.Controller.Reconcile.Pause.{requeue-min}

module _ {S A : Type 0} (c : Cluster) (set_owner : Job → Option Error) (k : Kind S A)
    (exporter_image : String) (get_cr : c.State → Fetched (Resource S))
    (update_cr : Resource S → c.State → Option Error × c.State) (now : ℤ) where
  open c use {State, get_secret, jobs}

  abbrev pass : Resource S → State → Result ℤ × State
  pass = reconcile_cr c set_owner k exporter_image get_cr update_cr now

  abbrev finish : Resource S → ℤ → State → Result ℤ × State
  finish = update_status c set_owner k exporter_image get_cr update_cr now

  abbrev dispatched : Resource S → State → Result ℤ × State
  dispatched = dispatch c set_owner k exporter_image get_cr update_cr now

  -- The inventory of the resource, or what discovery with some credentials gives for its spec.
  abbrev pub Inventory : Resource S → List String → Type 0
  Inventory cr repos =
      (repos ≡ cr.status.discovered_repositories)
      ⊎ ((auth : A) × (owner : String) × (k.discover auth owner (k.target_type cr.spec)
              (selector_from (k.exporter cr.spec).auto_discover)
            ≡ ok repos))

  -- The resource with another status, which has such an inventory.
  abbrev pub Same : Resource S → Resource S → Type 0
  Same cr cr' =
      (cr'.name ≡ cr.name)
      × (cr'.namespace ≡ cr.namespace)
      × (cr'.spec ≡ cr.spec)
      × Inventory cr cr'.status.discovered_repositories

  limited-min :
      (threshold : ℤ) (b : Result Budget) (q : ℤ)
      → rate_limited now threshold b ≡ some q
      → pending_requeue ≤ℤ q
  unfolding rate_limited
  limited-min threshold (err e) q h = cc
  limited-min threshold (ok b) q h = elim (Bool-cases (leb_ℤ threshold (pos 0))) [
    | inl e ↦ cc (rw e at h)
    | inr n ↦ elim (Bool-cases (not b.known || leb_ℤ threshold b.remaining)) [
      | inl e ↦ cc (rw e at (rw n at h))
      | inr m ↦
          subst (λ x. pending_requeue ≤ℤ x) (some_inj (rw m at (rw n at h)))
            (requeue-min now b.reset)
    ]
  ]
    where
      some_inj : {a b : ℤ} → some a ≡ some b → a ≡ b
      some_inj e = cc

  discovered-Same :
      (auth : A) (owner : String) (cr cr' : Resource S)
      → discovered c set_owner k exporter_image get_cr update_cr now auth owner cr ≡ ok cr'
      → Same cr cr'
  unfolding discovered
  discovered-Same auth owner cr cr' h =
      go
        (needs_discovery now cr.status.last_discovery_time
          (length cr.status.discovered_repositories) (k.exporter cr.spec).discovery_interval)
        (k.discover auth owner (k.target_type cr.spec)
          (selector_from (k.exporter cr.spec).auto_discover))
        refl h
    where
      go :
          (b : Bool) (x : Result (List String))
          → k.discover auth owner
              (k.target_type cr.spec)
              (selector_from (k.exporter cr.spec).auto_discover)
            ≡ x
          → (if b
              then elim x as (λ _. Result (Resource S)) [
                | err e ↦ err e
                | ok repos ↦ ok (record cr {
                  status = record cr.status {
                    discovered_repositories = repos;
                    last_discovery_time = some now;
                  };
                })
              ]
              else ok cr)
            ≡ ok cr'
          → Same cr cr'
      go true (err e) f h = cc
      go true (ok repos) f h = subst (Same cr) (ok_inj h) (refl, refl, refl, inr (auth, owner, f))
      go false x f h = subst (Same cr) (ok_inj h) (refl, refl, refl, inl refl)

  -- A pass either stops early, with a delay of at least thirty seconds, or dispatches.
  pub branches :
      (Q : Result ℤ × State → Type 0) (cr : Resource S) (s : State)
      → ((cr' : Resource S) (q : ℤ) → pending_requeue ≤ℤ q → Q (finish cr' q s))
      → ((cr' : Resource S) → Same cr cr' → Q (dispatched cr' s))
      → Q (pass cr s)
  unfolding reconcile_cr after_auth discovered
  branches Q cr s stops goes =
      with_auth
        (k.authenticate cr (get_secret cr.namespace (k.exporter cr.spec).credentials_secret s))
    where
      with_inventory :
          (x : Result (Resource S))
          → ((cr' : Resource S) → x ≡ ok cr' → Same cr cr')
          → Q (elim x [
            | err e ↦
                finish
                  (set_ready c set_owner k exporter_image get_cr update_cr now false
                    "DiscoveryFailed" cr)
                  credential_requeue
                  s
            | ok cr ↦ dispatched cr s
          ])
      with_inventory (err e) h = stops _ credential_requeue (omega arith)
      with_inventory (ok cr') h = goes cr' (h cr' refl)

      with_budget :
          (auth : A) (owner : String) (x : Option ℤ)
          → ((q : ℤ) → x ≡ some q → pending_requeue ≤ℤ q)
          → Q (elim x [
            | some requeue ↦
                finish
                  (set_ready c set_owner k exporter_image get_cr update_cr now false "RateLimited"
                    cr)
                  requeue
                  s
            | none ↦
                elim (discovered c set_owner k exporter_image get_cr update_cr now auth owner cr) [
                  | err e ↦
                      finish
                        (set_ready c set_owner k exporter_image get_cr update_cr now false
                          "DiscoveryFailed" cr)
                        credential_requeue
                        s
                  | ok cr ↦ dispatched cr s
                ]
          ])
      with_budget auth owner (some q) h = stops _ q (h q refl)
      with_budget auth owner none h = with_inventory _ (discovered-Same auth owner cr)

      with_auth :
          (x : Result (A × String))
          → Q (elim x [
            | err e ↦
                finish
                  (set_ready c set_owner k exporter_image get_cr update_cr now false
                    "CredentialsInvalid" cr)
                  credential_requeue
                  s
            | ok a ↦ after_auth c set_owner k exporter_image get_cr update_cr now a.0 a.1 cr s
          ])
      with_auth (err e) = stops _ credential_requeue (omega arith)
      with_auth (ok a) =
          with_budget a.0 a.1
            (rate_limited now (k.exporter cr.spec).rate_limit_threshold (k.rate_budget a.0))
            (limited-min (k.exporter cr.spec).rate_limit_threshold (k.rate_budget a.0))
