-- ===== src/Controller/Environment/Admitted.antt =====
-- A resource that the API server and the webhook (api/v1alpha1) admit, and its Job
-- (internal/controller/render.go): the exporter (internal/config) starts with it.
use Prim.Native.Nat.{◌^◌, ◌<◌}
use scm_metrics_exporter.Prelude.{
  ℕ, String, ◌≡◌, refl, sym, ap, ◌∙◌, inl, inr, Bool, true, false, not, ◌&&◌, ◌||◌, none, List, [],
  ◌==◌, string_eq, Bool-cases, eq_of_beq, arith,
}
use scm_metrics_exporter.Prelude.Int.{ℤ, pos, negsuc, int_eq}
use scm_metrics_exporter.Prelude.Assoc.{lookup, or_else}
use scm_metrics_exporter.Prelude.Errors.{ok, is_some}
use scm_metrics_exporter.Prelude.Text.{Unicode}
use scm_metrics_exporter.Prelude.Text.Digits.{IsInt64}
use scm_metrics_exporter.Api.{GitHubSpec, Resource, Secret, Fetched, found, not_found, fetch_failed}
use scm_metrics_exporter.Api.Schema.{github_schema, positive, sized}
use scm_metrics_exporter.Api.Webhook.{validate_credentials_secret, wanted_key, validate_github}
use scm_metrics_exporter.Config.{Environment, load, validate_lifecycle}
use scm_metrics_exporter.Config.Usable.{given, github_usable}
use scm_metrics_exporter.Controller.Render.{github_job}
use scm_metrics_exporter.Controller.Environment.{Secrets, value_in}
use scm_metrics_exporter.Controller.Environment.Values.{github_wanted, lifecycle_wanted}
use scm_metrics_exporter.Controller.Environment.Loaded.{wanted, load-github_job}

-- The Secret is there and has the key.
abbrev has_key : Fetched Secret → String → Bool
has_key not_found key = false
has_key (fetch_failed e) key = false
has_key (found s) key = is_some (lookup key s)

validate_credentials_secret_lem :
    (get : String → Fetched Secret) (name key : String)
    → is_some (validate_credentials_secret get name key)
      ≡ not (given name && has_key (get name) key)
unfolding validate_credentials_secret
validate_credentials_secret_lem get name key = ground arith

validate_github-has_key :
    (watched : List String) (get : String → String → Fetched Secret) (cr : Resource GitHubSpec)
    → validate_github watched get cr ≡ none
    → has_key (get cr.namespace cr.spec.exporter.credentials_secret) (wanted_key cr.spec) ≡ true
unfolding validate_github
validate_github-has_key watched get cr h =
    let checked =
      validate_credentials_secret_lem (get cr.namespace) cr.spec.exporter.credentials_secret
        (wanted_key cr.spec) in
    grind arith

first_holds : (a b : Bool) → (a && b) ≡ true → a ≡ true
first_holds true b h = refl
first_holds false b h = h

second_holds : (a b : Bool) → (a && b) ≡ true → b ≡ true
second_holds true b h = h
second_holds false b h = cc

implied : (a b : Bool) → (not a || b) ≡ true → a ≡ true → b ≡ true
implied true b h e = h
implied false b h e = cc

-- The rule of an App.
app_rule :
    (spec : GitHubSpec)
    → github_schema spec ≡ true
    → (spec.auth_mode == "app") ≡ true
    → (positive spec.app_id
        && (positive spec.app_installation_id && sized spec.app_private_key_key))
      ≡ true
unfolding github_schema
app_rule spec rules e = implied _ _ (second_holds _ _ (first_holds _ _ (first_holds _ _ rules))) e

positive_lem : (x : ℤ) → positive x ≡ true → (x == pos 0) ≡ false
positive_lem (pos n) h = ground arith
positive_lem (negsuc n) h = refl

module _ (secrets : Secrets) (get : String → String → Fetched Secret) (cr : Resource GitHubSpec)
    -- The data that a container gets from the Secrets of the resource, and they are not empty.
    (mounted : (name key : String)
      → has_key (get cr.namespace name) key ≡ true
      → given (secrets name key) ≡ true) where
  target_usable :
      github_schema cr.spec ≡ true
      → let c = github_wanted secrets cr.spec in
        ((c.target_type == "org" && given c.org) || (c.target_type == "user" && given c.user))
        ≡ true
  unfolding github_schema
  target_usable rules = elim (Bool-cases (cr.spec.target_type == "org")) [
    | inl e ↦
        let named : given cr.spec.org ≡ true = grind arith in
        rw (eq_of_beq cr.spec.target_type "org" e, named) refl
    | inr e ↦
        let user : (cr.spec.target_type == "user") ≡ true = grind arith in
        let named : given cr.spec.user ≡ true = grind arith in
        rw (eq_of_beq cr.spec.target_type "user" user, named) refl
  ]

  credentials_usable :
      (watched : List String)
      → github_schema cr.spec ≡ true
      → validate_github watched get cr ≡ none
      → let c = github_wanted secrets cr.spec in
        (given c.token
          || (not (c.app_id == pos 0)
              && (not (c.app_installation_id == pos 0) && given c.app_private_key_path)))
        ≡ true
  unfolding github_schema wanted_key
  credentials_usable watched rules admitted = elim (Bool-cases (cr.spec.auth_mode == "app")) [
    | inl e ↦
        let rule = app_rule cr.spec rules e in
        let id = first_holds (positive cr.spec.app_id) _ rule in
        let installation =
          first_holds (positive cr.spec.app_installation_id) _
            (second_holds (positive cr.spec.app_id) _ rule) in
        rw
          (e, positive_lem cr.spec.app_id id, positive_lem cr.spec.app_installation_id installation)
          refl
    | inr e ↦
        let key : wanted_key cr.spec ≡ cr.spec.token_key = rw e refl in
        let there = validate_github-has_key watched get cr admitted in
        let token =
          mounted cr.spec.exporter.credentials_secret cr.spec.token_key (
            sym (ap (has_key (get cr.namespace cr.spec.exporter.credentials_secret)) key)
            ∙ there) in
        rw (e, token) refl
  ]

  usable :
      (watched : List String)
      → github_schema cr.spec ≡ true
      → validate_github watched get cr ≡ none
      → github_usable (github_wanted secrets cr.spec) ≡ true
  usable watched rules admitted =
      rw (target_usable rules, credentials_usable watched rules admitted) refl

  lifecycle_valid :
      github_schema cr.spec ≡ true
      → is_some (validate_lifecycle (lifecycle_wanted secrets cr.spec)) ≡ false
  unfolding github_schema validate_lifecycle
  lifecycle_valid rules = ground arith

  -- The exporter of an admitted resource starts. For a resource that meets the rules of its type and
  -- passes the webhook, and Secrets whose keys are not empty in the container, Load succeeds on the
  -- environment of each Job that the operator renders, and gives the resource's settings. The
  -- environment has just the variables of the Job's container; the resource brings none of its own,
  -- its identifiers are of sixty-four bits and its two durations positive ones of sixty-three.
  pub load-validate_github :
      ⦃u : Unicode⦄ (watched : List String) (env : Environment) (image repo : String)
      (lookback window : ℕ)
      → github_schema cr.spec ≡ true
      → validate_github watched get cr ≡ none
      → ((n : String)
          → env n ≡ or_else "" (value_in secrets n (github_job cr image repo).container.env))
      → cr.spec.exporter.env ≡ []
      → IsInt64 cr.spec.app_id
      → IsInt64 cr.spec.app_installation_id
      → cr.spec.exporter.workflow_lookback ≡ pos lookback
      → 0 < lookback
      → lookback < 2 ^ 63
      → cr.spec.exporter.resolution_window ≡ pos window
      → 0 < window
      → window < 2 ^ 63
      → load env "github" ≡ ok (wanted secrets cr)
  load-validate_github watched env image repo lookback window rules admitted has plain id
        installation d some_time fits d' some_time' fits' =
      load-github_job secrets cr env image repo lookback window has plain id installation d
        some_time fits d' some_time' fits' (usable watched rules admitted) (lifecycle_valid rules)
