-- ===== src/Controller/Reconcile.antt =====
-- The `Reconcile` methods of internal/controller, which differ in their credentials, their discovery
-- and their Jobs alone. Those are the fields of `Kind`; the messages of conditions are left out.
pub mod Pause
pub mod Branches
pub mod Outcomes
use Prim.Native.String
use scm_metrics_exporter.Prelude.{
  ℕ, String, Bool, true, false, Option, none, some, List, [], ◌∷◌, length, if◌then◌else◌, ◌==◌,
  string_eq,
}
use scm_metrics_exporter.Prelude.Int.{ℤ, pos}
use scm_metrics_exporter.Prelude.Assoc.{lookup}
use scm_metrics_exporter.Prelude.Errors.{Error, message, wrap, Result, ok, err}
use scm_metrics_exporter.Prelude.Text.{Unicode}
use scm_metrics_exporter.Api.{
  ExporterSpec, GitHubSpec, GitLabSpec, Resource, Secret, Fetched, found, not_found, fetch_failed,
}
use scm_metrics_exporter.Discovery.{Selector, Budget}
use scm_metrics_exporter.Controller.Render.{Job, github_job, gitlab_job}
use scm_metrics_exporter.Controller.Common.{
  credential_requeue, pending_requeue, rate_limited, ready_condition, needs_discovery,
  selector_from,
}
use scm_metrics_exporter.Controller.Cluster.{Cluster}
use scm_metrics_exporter.Controller.Dispatch.{dispatch_jobs}

-- What a reconciler does in its own way, with a spec and its credentials.
pub record Kind (S A : Type 0) : Type 0 where
  pub exporter : S → ExporterSpec
  pub target_type : S → String
  pub authenticate : Resource S → Fetched Secret → Result (A × String)
  pub rate_budget : A → Result Budget
  pub discover : A → String → String → Selector → Result (List String)
  pub job : Resource S → (image repo : String) → Job

module _ {S A : Type 0} (c : Cluster) (set_owner : Job → Option Error) (k : Kind S A)
    (exporter_image : String) (get_cr : c.State → Fetched (Resource S))
    (update_cr : Resource S → c.State → Option Error × c.State) (now : ℤ) where
  open c use {State, get_secret}

  abbrev pub updated : ℤ → Option Error → Result ℤ
  updated requeue none = ok requeue
  updated requeue (some e) = err (wrap "update status" e)

  unfoldable pub update_status : Resource S → ℤ → State → Result ℤ × State
  update_status cr requeue s =
      let cr = record cr { status = record cr.status { observed_generation = cr.generation } } in
      let (failure, s) = update_cr cr s in (updated requeue failure, s)

  abbrev pub set_ready : Bool → String → Resource S → Resource S
  set_ready ready reason cr = record cr {
    status = record cr.status { condition = some (ready_condition cr.generation ready reason) };
  }

  -- The resource with its inventory, new or as it was.
  unfoldable pub discovered : A → String → Resource S → Result (Resource S)
  discovered auth owner cr =
      let spec = k.exporter cr.spec in
      if needs_discovery now cr.status.last_discovery_time
        (length cr.status.discovered_repositories) spec.discovery_interval
      then elim (k.discover auth owner (k.target_type cr.spec) (selector_from spec.auto_discover)) [
        | err e ↦ err e
        | ok repos ↦ ok (record cr {
          status = record cr.status {
            discovered_repositories = repos;
            last_discovery_time = some now;
          };
        })
      ]
      else ok cr

  unfoldable pub dispatch : Resource S → State → Result ℤ × State
  dispatch cr s =
      let spec = k.exporter cr.spec in
      let image = if spec.image == "" then exporter_image else spec.image in
      let (res, s) =
        dispatch_jobs c set_owner (k.job cr image) spec.parallelism cr.name cr.namespace
          cr.status.discovered_repositories s in
      elim res [
        | err e ↦ update_status (set_ready false "DispatchFailed" cr) credential_requeue s
        | ok pending ↦
            update_status (set_ready true "Discovered" cr)
              (if pending then pending_requeue else spec.discovery_interval) s
      ]

  unfoldable pub after_auth : A → String → Resource S → State → Result ℤ × State
  after_auth auth owner cr s =
      elim (rate_limited now (k.exporter cr.spec).rate_limit_threshold (k.rate_budget auth)) [
        | some requeue ↦ update_status (set_ready false "RateLimited" cr) requeue s
        | none ↦ elim (discovered auth owner cr) [
          | err e ↦ update_status (set_ready false "DiscoveryFailed" cr) credential_requeue s
          | ok cr ↦ dispatch cr s
        ]
      ]

  unfoldable pub reconcile_cr : Resource S → State → Result ℤ × State
  reconcile_cr cr s =
      elim (k.authenticate cr (get_secret cr.namespace (k.exporter cr.spec).credentials_secret s)) [
        | err e ↦ update_status (set_ready false "CredentialsInvalid" cr) credential_requeue s
        | ok a ↦ after_auth a.0 a.1 cr s
      ]

  -- The delay after which the request is to come again; no delay, if it is not to.
  unfoldable pub reconcile : State → Result ℤ × State
  reconcile s = elim (get_cr s) [
    | found cr ↦ reconcile_cr cr s
    | not_found ↦ (ok (pos 0), s)
    | fetch_failed e ↦ (err e, s)
  ]

abbrev key_error : String → String → Error
key_error secret key =
    message
      (String.◌++◌ (String.◌++◌ "credentials Secret " secret) (String.◌++◌ " is missing key " key))

-- A key of a Secret that is there and not empty.
abbrev non_empty : Option String → Option String
non_empty none = none
non_empty (some v) = if v == "" then none else some v

pub data GitHubAuth : Type 0 where
  app_auth : (app_id installation_id : ℤ) → (private_key : String) → GitHubAuth
  token_auth : String → GitHubAuth

unfoldable pub github_auth : Resource GitHubSpec → Fetched Secret → Result (GitHubAuth × String)
github_auth cr not_found = err (
    message (
      String.◌++◌ (String.◌++◌ "credentials Secret " cr.spec.exporter.credentials_secret)
        " not found"))
github_auth cr (fetch_failed e) = err e
github_auth cr (found secret) =
    let spec = cr.spec in
    let owner = if spec.target_type == "user" then spec.user else spec.org in
    let app : Result (GitHubAuth × String) =
      elim (non_empty (lookup spec.app_private_key_key secret)) [
        | none ↦ err (key_error spec.exporter.credentials_secret spec.app_private_key_key)
        | some pem ↦ ok (app_auth spec.app_id spec.app_installation_id pem, owner)
      ] in
    let token : Result (GitHubAuth × String) = elim (non_empty (lookup spec.token_key secret)) [
      | none ↦ err (key_error spec.exporter.credentials_secret spec.token_key)
      | some t ↦ ok (token_auth t, owner)
    ] in
    if spec.auth_mode == "app" then app else token

pub record GitLabAuth : Type 0 where
  pub token : String
  pub base_url : String

unfoldable pub gitlab_auth : Resource GitLabSpec → Fetched Secret → Result (GitLabAuth × String)
gitlab_auth cr not_found = err (
    message (
      String.◌++◌ (String.◌++◌ "credentials Secret " cr.spec.exporter.credentials_secret)
        " not found"))
gitlab_auth cr (fetch_failed e) = err e
gitlab_auth cr (found secret) =
    let spec = cr.spec in
    elim (non_empty (lookup spec.token_key secret)) [
      | none ↦ err (key_error spec.exporter.credentials_secret spec.token_key)
      | some t ↦ ok (
        record { token = t; base_url = spec.base_url },
        if spec.target_type == "user" then spec.user else spec.group,
      )
    ]

module _ ⦃u : Unicode⦄ where
  -- The probe and the listing of the reconcilers, which tests replace.
  abbrev pub github_kind :
      (GitHubAuth → Result Budget)
      → (GitHubAuth → String → String → Selector → Result (List String))
      → Kind GitHubSpec GitHubAuth
  github_kind rate_budget discover = record {
    exporter = λ spec. spec.exporter;
    target_type = λ spec. spec.target_type;
    authenticate = github_auth;
    rate_budget = rate_budget;
    discover = discover;
    job = github_job;
  }

  abbrev pub gitlab_kind :
      (GitLabAuth → Result Budget)
      → (GitLabAuth → String → String → Selector → Result (List String))
      → Kind GitLabSpec GitLabAuth
  gitlab_kind rate_budget discover = record {
    exporter = λ spec. spec.exporter;
    target_type = λ spec. spec.target_type;
    authenticate = gitlab_auth;
    rate_budget = rate_budget;
    discover = discover;
    job = gitlab_job;
  }
