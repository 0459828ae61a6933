-- ===== src/Controller/Environment/Loaded.antt =====
-- What the exporter (internal/config) loads from the environment that the operator gives its Job
-- (internal/controller/render.go).
use Prim.Native.Nat.{◌^◌, ◌<◌}
use Prim.Native.Char.{char}
use mathlib.Core.List.{append-nil}
use scm_metrics_exporter.Prelude.{
  ℕ, String, ◌≡◌, refl, sym, ap, ◌∙◌, inl, inr, Bool, true, false, not, Option, none, some, [],
  ◌++◌, if◌then◌else◌, ◌==◌, string_eq, Bool-cases, eq_of_beq, arith,
}
use scm_metrics_exporter.Prelude.Int.{ℤ, pos, leb_ℤ}
use scm_metrics_exporter.Prelude.Assoc.{or_else}
use scm_metrics_exporter.Prelude.Errors.{Error, ok, is_some}
use scm_metrics_exporter.Prelude.Text.{Unicode}
use scm_metrics_exporter.Prelude.Text.Decimal.{format_int, parse_int}
use scm_metrics_exporter.Prelude.Text.Digits.{IsInt64, parse_int-format_int}
use scm_metrics_exporter.Prelude.Text.Duration.{format_duration}
use scm_metrics_exporter.Prelude.Text.Durations.{parse_duration}
use scm_metrics_exporter.Prelude.Text.Nanos.{parse_duration-format_duration}
use scm_metrics_exporter.Prelude.Text.Split.{join}
use scm_metrics_exporter.Api.{GitHubSpec, Resource}
use scm_metrics_exporter.Config.{
  Config, Environment, default_poll_interval, default_resolution_window, no_gitlab,
  parse_dimensions, load, load_github, load_lifecycle, load_provider, getenv_duration, getenv_int64,
  checked, github_settings, lifecycle_settings, base_settings, validate_github_config,
  validate_lifecycle,
}
use scm_metrics_exporter.Config.Usable.{github_usable, validate_github_config_lem}
use scm_metrics_exporter.Controller.Render.{github_env, github_job, collection_job}
use scm_metrics_exporter.Controller.Environment.{Secrets, value_in, value_in-github_env}
use scm_metrics_exporter.Controller.Environment.Values.{
  app, github_wanted, lifecycle_wanted, value, poll-value, token-value, dimensions-value,
  tool-value, addr-value, password-value, enabled-value, workflows-value, window-value,
  lookback-value, app_id-value, installation-value, key_path-value,
}

not_empty : (s : String) (d : ℤ) → parse_duration s ≡ some d → (s == "") ≡ false
unfolding parse_duration
not_empty s d h = elim (Bool-cases (s == "")) [
  | inr e ↦ e
  | inl e ↦
      let empty : parse_duration s ≡ none = ap parse_duration (eq_of_beq s "" e) in cc (h, empty)
]

-- A duration that the operator sets, or the exporter's default.
duration_read :
    (env : Environment) (key : String) (d : ℤ) (n : ℕ) (set : Bool) (def : ℤ)
    → env key ≡ (if set then format_duration d else "")
    → d ≡ pos n
    → 0 < n
    → n < 2 ^ 63
    → getenv_duration env key def ≡ ok (if set then d else def)
unfolding getenv_duration
duration_read env key d n false def h e some_time fits = rw h refl
duration_read env key d n true def h e some_time fits =
    let read : parse_duration (format_duration d) ≡ some (pos n) =
      rw e (parse_duration-format_duration n fits) in
    let large : leb_ℤ (pos n) (pos 0) ≡ false = ground arith in
    rw (h, not_empty (format_duration d) (pos n) read, read, large) (ap ok (sym e))

int_not_empty : (s : String) (d : ℤ) → parse_int s ≡ some d → (s == "") ≡ false
unfolding parse_int
int_not_empty s d h = elim (Bool-cases (s == "")) [
  | inr e ↦ e
  | inl e ↦ let empty : parse_int s ≡ none = ap parse_int (eq_of_beq s "" e) in cc (h, empty)
]

int_read :
    (env : Environment) (key : String) (x : ℤ) (set : Bool)
    → env key ≡ (if set then format_int x else "")
    → IsInt64 x
    → getenv_int64 env key ≡ ok (if set then x else pos 0)
unfolding getenv_int64
int_read env key x false h fits = rw h refl
int_read env key x true h fits =
    let read = parse_int-format_int x fits in rw (h, int_not_empty (format_int x) x read, read) refl

checked-ok : {A : Type 0} (o : Option Error) (a : A) → is_some o ≡ false → checked o a ≡ ok a
checked-ok none a h = refl
checked-ok (some e) a h = cc

module _ ⦃u : Unicode⦄ (secrets : Secrets) (cr : Resource GitHubSpec) where
  -- The configuration that a resource asks for.
  abbrev pub wanted : Config
  wanted = record {
    provider = "github";
    poll_interval = default_poll_interval;
    dimensions = parse_dimensions (join (char 44 tt) cr.spec.exporter.finding_dimensions);
    github = github_wanted secrets cr.spec;
    gitlab = no_gitlab;
    lifecycle = lifecycle_wanted secrets cr.spec;
  }

module _ ⦃u : Unicode⦄ (secrets : Secrets) (cr : Resource GitHubSpec) (env : Environment) where
  abbrev spec : GitHubSpec
  spec = cr.spec

  at-env :
      ((n : String) → env n ≡ or_else "" (value_in secrets n (github_env cr)))
      → (n : String) → env n ≡ value secrets spec n
  at-env has n = has n ∙ ap (λ o. or_else "" o) (value_in-github_env secrets n cr)

  github_settings-wanted :
      ((n : String) → env n ≡ value secrets spec n)
      → github_settings env
          (if app secrets spec then spec.app_id else pos 0)
          (if app secrets spec then spec.app_installation_id else pos 0)
          (if spec.exporter.collect_workflows then spec.exporter.workflow_lookback else pos 0)
        ≡ github_wanted secrets spec
  unfolding github_settings
  github_settings-wanted at =
      rw
        (
          at "GITHUB_TARGET_TYPE",
          at "GITHUB_ORG",
          at "GITHUB_USER",
          at "GITHUB_TOKEN" ∙ token-value secrets spec,
          at "GITHUB_APP_PRIVATE_KEY_PATH" ∙ key_path-value secrets spec,
          at "GITHUB_CODE_SCANNING_TOOL" ∙ tool-value secrets spec,
          ap (λ v. v == "true") (at "GITHUB_COLLECT_WORKFLOWS") ∙ workflows-value secrets spec,
        )
        refl

  lifecycle_settings-wanted :
      ((n : String) → env n ≡ value secrets spec n)
      → lifecycle_settings env (
          if spec.exporter.collect_lifecycle
          then spec.exporter.resolution_window
          else default_resolution_window)
        ≡ lifecycle_wanted secrets spec
  unfolding lifecycle_settings
  lifecycle_settings-wanted at =
      rw
        (
          at "VALKEY_ADDR" ∙ addr-value secrets spec,
          at "VALKEY_PASSWORD" ∙ password-value secrets spec,
          ap (λ v. v == "true") (at "SCM_COLLECT_LIFECYCLE") ∙ enabled-value secrets spec,
        )
        refl

  load_github-wanted :
      (lookback : ℕ)
      → ((n : String) → env n ≡ value secrets spec n)
      → IsInt64 spec.app_id
      → IsInt64 spec.app_installation_id
      → spec.exporter.workflow_lookback ≡ pos lookback
      → 0 < lookback
      → lookback < 2 ^ 63
      → github_usable (github_wanted secrets spec) ≡ true
      → load_github env ≡ ok (github_wanted secrets spec)
  unfolding load_github
  load_github-wanted lookback at id installation d some_time fits usable =
      let c = github_wanted secrets spec in
      rw
        (
          int_read env "GITHUB_APP_ID" spec.app_id (app secrets spec)
              (at "GITHUB_APP_ID" ∙ app_id-value secrets spec) id,
          int_read env "GITHUB_APP_INSTALLATION_ID" spec.app_installation_id (app secrets spec)
              (at "GITHUB_APP_INSTALLATION_ID" ∙ installation-value secrets spec) installation,
          duration_read env "GITHUB_WORKFLOW_LOOKBACK" spec.exporter.workflow_lookback lookback
              spec.exporter.collect_workflows (pos 0)
              (at "GITHUB_WORKFLOW_LOOKBACK" ∙ lookback-value secrets spec) d some_time fits,
        )
        (ap (λ c. checked (validate_github_config c) c) (github_settings-wanted at)
          ∙ checked-ok (validate_github_config c) c (validate_github_config_lem c ∙ ap not usable))

  load_lifecycle-wanted :
      (window : ℕ)
      → ((n : String) → env n ≡ value secrets spec n)
      → spec.exporter.resolution_window ≡ pos window
      → 0 < window
      → window < 2 ^ 63
      → is_some (validate_lifecycle (lifecycle_wanted secrets spec)) ≡ false
      → load_lifecycle env ≡ ok (lifecycle_wanted secrets spec)
  unfolding load_lifecycle
  load_lifecycle-wanted window at d some_time fits valid =
      let l = lifecycle_wanted secrets spec in
      rw
        (duration_read env "SCM_RESOLUTION_WINDOW" spec.exporter.resolution_window window
          spec.exporter.collect_lifecycle default_resolution_window
          (at "SCM_RESOLUTION_WINDOW" ∙ window-value secrets spec) d some_time fits)
        (ap (λ l. checked (validate_lifecycle l) l) (lifecycle_settings-wanted at)
          ∙ checked-ok (validate_lifecycle l) l valid)

  -- The exporter of a Job loads the settings of its resource. For an environment that has just the
  -- variables of the Job's container, and a resource without further ones, whose identifiers are
  -- of sixty-four bits and whose durations are positive ones of sixty-three, Load succeeds if the
  -- settings are complete, and its configuration is the resource's: target, credentials, tool,
  -- dimensions, and both durations to the nanosecond. What is not collected is off.
  pub load-github_job :
      (image repo : String) (lookback window : ℕ)
      → ((n : String)
          → env n ≡ or_else "" (value_in secrets n (github_job cr image repo).container.env))
      → spec.exporter.env ≡ []
      → IsInt64 spec.app_id
      → IsInt64 spec.app_installation_id
      → spec.exporter.workflow_lookback ≡ pos lookback
      → 0 < lookback
      → lookback < 2 ^ 63
      → spec.exporter.resolution_window ≡ pos window
      → 0 < window
      → window < 2 ^ 63
      → github_usable (github_wanted secrets spec) ≡ true
      → is_some (validate_lifecycle (lifecycle_wanted secrets spec)) ≡ false
      → load env "github" ≡ ok (wanted secrets cr)
  unfolding load load_provider base_settings github_job collection_job getenv_duration
  load-github_job image repo lookback window has plain id installation d some_time fits d'
        some_time' fits' usable valid =
      let own : (github_job cr image repo).container.env ≡ github_env cr =
        ap (λ vs. github_env cr ++ vs) plain ∙ append-nil (github_env cr) in
      let at = at-env (λ n. has n ∙ ap (λ vs. or_else "" (value_in secrets n vs)) own) in
      let poll : env "POLL_INTERVAL" ≡ "" = at "POLL_INTERVAL" ∙ poll-value secrets spec in
      rw
        (
          poll,
          load_lifecycle-wanted window at d' some_time' fits' valid,
          at "SCM_FINDING_DIMENSIONS" ∙ dimensions-value secrets spec,
          load_github-wanted lookback at id installation d some_time fits usable,
        )
        refl
