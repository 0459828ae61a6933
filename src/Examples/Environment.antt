-- ===== src/Examples/Environment.antt =====
-- Examples about the environment that the operator gives the exporter: a GitHub App that counts
-- resolved findings.
use scm_metrics_exporter.Prelude.{
  String, if◌then◌else◌, ◌==◌, ◌≡◌, refl, true, false, none, some, [], ◌∷◌, string_eq, arith,
}
use scm_metrics_exporter.Prelude.Int.{pos, negsuc}
use scm_metrics_exporter.Prelude.Assoc.{lookup, or_else}
use scm_metrics_exporter.Prelude.Errors.{failed, ok, is_some}
use scm_metrics_exporter.Prelude.Text.{plain}
use scm_metrics_exporter.Prelude.Text.Duration.{format_duration}
use scm_metrics_exporter.Prelude.Text.Durations.{parse_duration}
use scm_metrics_exporter.Prelude.Text.Decimal.{format_int, parse_int}
use scm_metrics_exporter.Api.{GitHubSpec, RepoFilter, Resource, Secret, Fetched, found, not_found}
use scm_metrics_exporter.Api.Schema.{github_schema}
use scm_metrics_exporter.Api.Webhook.{
  validate_watched, validate_credentials_secret, wanted_key, validate_github,
}
use scm_metrics_exporter.Config.{
  getenv_duration, lifecycle_settings, base_settings, load_github, getenv_int64, Environment, load,
  validate_lifecycle,
}
use scm_metrics_exporter.Controller.Render.{
  collection_job, github_env, common_exporter_env, valkey_env, workflow_env, github_job,
}
use scm_metrics_exporter.Controller.Environment.{Secrets, value_in}
use scm_metrics_exporter.Controller.Environment.Admitted.{load-validate_github}
use scm_metrics_exporter.Controller.Environment.Values.{lifecycle_wanted}
use scm_metrics_exporter.Controller.Environment.Loaded.{wanted, load-github_job}

abbrev any_repo : RepoFilter
any_repo = record { topics = []; visibility = []; name_patterns = []; archived = none }

abbrev octo : Resource GitHubSpec
octo = record {
  name = "octo";
  namespace = "scm";
  generation = 1;
  spec = record {
    exporter = record {
      discovery_interval = pos 900_000_000_000;
      parallelism = pos 2;
      rate_limit_threshold = pos 200;
      image = "";
      resources = [];
      volumes = [];
      volume_mounts = [];
      env = [];
      otlp_endpoint = "http://otel:4318";
      auto_discover = record { include = any_repo; exclude = any_repo };
      finding_dimensions = "tool" ∷ "severity" ∷ [];
      collect_workflows = true;
      workflow_lookback = pos 604_800_000_000_000;
      credentials_secret = "creds";
      collect_lifecycle = true;
      resolution_window = pos 7_776_000_000_000_001;
      valkey =
          some (record { endpoint = "valkey:6379"; secret_ref = some "valkey"; password_key = "" });
    };
    target_type = "org";
    org = "octo";
    user = "";
    auth_mode = "app";
    token_key = "";
    app_id = pos 7;
    app_installation_id = pos 9;
    app_private_key_key = "key";
    code_scanning_tool = "";
  };
  status = record {
    observed_generation = 0;
    discovered_repositories = [];
    last_discovery_time = none;
    condition = none;
  };
}

abbrev secrets : Secrets
secrets name key = "hunter2"

abbrev container : Environment
container n =
    or_else "" (value_in secrets n (github_job ⦃u = plain⦄ octo "exporter:1" "web").container.env)

octo_lifecycle : is_some (validate_lifecycle (lifecycle_wanted secrets octo.spec)) ≡ false
unfolding validate_lifecycle
octo_lifecycle = refl

load-github_job_example : load ⦃u = plain⦄ container "github" ≡ ok (wanted ⦃u = plain⦄ secrets octo)
load-github_job_example =
    load-github_job ⦃u = plain⦄ secrets octo container "exporter:1" "web" 604_800_000_000_000
      7_776_000_000_000_001 (λ n. refl) refl (omega arith) (omega arith) refl (omega arith)
      (omega arith) refl (omega arith) (omega arith) refl octo_lifecycle

-- The Secret that the resource names, and its Valkey password.
abbrev cluster_secrets : String → String → Fetched Secret
cluster_secrets namespace name =
    if name == "creds"
    then found (("key", "hunter2") ∷ [])
    else if name == "valkey"
    then found (("password", "hunter2") ∷ [])
    else not_found

octo_rules : github_schema octo.spec ≡ true
unfolding github_schema
octo_rules = refl

octo_admitted : validate_github ("scm" ∷ []) cluster_secrets octo ≡ none
unfolding validate_github validate_watched validate_credentials_secret wanted_key lookup
octo_admitted = refl

load-validate_github_example :
    load ⦃u = plain⦄ container "github" ≡ ok (wanted ⦃u = plain⦄ secrets octo)
load-validate_github_example =
    load-validate_github secrets cluster_secrets octo (λ name key h. refl) ⦃u = plain⦄ ("scm" ∷ [])
      container "exporter:1" "web" 604_800_000_000_000 7_776_000_000_000_001 octo_rules
      octo_admitted (λ n. refl) refl (omega arith) (omega arith) refl (omega arith) (omega arith)
      refl (omega arith) (omega arith)

-- The same resource with no time to look back: it is admitted, and its Jobs fail.
abbrev no_lookback : Resource GitHubSpec
no_lookback = record octo {
  spec = record octo.spec { exporter = record octo.spec.exporter { workflow_lookback = pos 0 } };
}

no_lookback_rules : github_schema no_lookback.spec ≡ true
unfolding github_schema
no_lookback_rules = refl

no_lookback_admitted : validate_github ("scm" ∷ []) cluster_secrets no_lookback ≡ none
unfolding validate_github validate_watched validate_credentials_secret wanted_key lookup
no_lookback_admitted = refl

no_lookback_fails :
    failed (
      load ⦃u = plain⦄
        (λ n. or_else "" (
          value_in secrets n (github_job ⦃u = plain⦄ no_lookback "exporter:1" "web").container.env))
        "github")
    ≡ true
unfolding load getenv_duration github_job collection_job github_env common_exporter_env valkey_env
    workflow_env format_duration parse_duration validate_lifecycle lifecycle_settings base_settings
    load_github getenv_int64 format_int parse_int
no_lookback_fails = refl

-- Prints of durations.
window_text : format_duration (pos 7_776_000_000_000_001) ≡ "2160h0m0.000000001s"
unfolding format_duration
window_text = refl

back_in_time : parse_duration "-1.5h" ≡ some (negsuc 5_399_999_999_999)
unfolding parse_duration
back_in_time = refl
