-- ===== src/Examples/Config.antt =====
-- Examples about internal/config and cmd/operator: an environment of a run-once Job.
use Prim.Native.Char.{char}
use scm_metrics_exporter.Prelude.{
  String, ◌≡◌, refl, true, false, some, none, List, [], ◌∷◌, any, if◌then◌else◌, ◌==◌, string_eq,
}
use scm_metrics_exporter.Prelude.Int.{pos, negsuc}
use scm_metrics_exporter.Prelude.Errors.{ok, failed, Gives}
use scm_metrics_exporter.Prelude.Text.{plain, is_space}
use scm_metrics_exporter.Prelude.Text.Split.{split, join}
use scm_metrics_exporter.Prelude.Text.Trim.{trim_space, trim_left, trim_right}
use scm_metrics_exporter.Prelude.Text.Durations.{parse_duration}
use scm_metrics_exporter.Config.{
  Config, GitHubConfig, Environment, no_github, no_gitlab, getenv_default, getenv_int64,
  getenv_duration, load, load_github, load_gitlab, gitlab_settings, validate_gitlab_config,
  load_lifecycle, load_provider, github_settings, lifecycle_settings, base_settings,
  validate_github_config, validate_lifecycle, parse_dimensions, add_dimensions,
}
use scm_metrics_exporter.Config.Usable.{Usable, load-Usable}
use scm_metrics_exporter.Config.Dimensions.{names, parse_dimensions-join}
use scm_metrics_exporter.Operator.{parse_watch_namespaces}
use scm_metrics_exporter.Operator.Namespaces.{named, refused, Collects, parse_watch_namespaces_lem}

abbrev pub job_environment : Environment
job_environment key =
    if key == "GITHUB_ORG"
    then "acme"
    else if key == "GITHUB_TOKEN"
    then "t0ken"
    else if key == "SCM_COLLECT_LIFECYCLE"
    then "true"
    else if key == "SCM_RESOLUTION_WINDOW"
    then "1h0m0s"
    else if key == "VALKEY_ADDR"
    then "valkey:6379"
    else if key == "SCM_FINDING_DIMENSIONS"
    then "tool, severity"
    else ""

abbrev acme : GitHubConfig
acme = record no_github { target_type = "org"; org = "acme"; token = "t0ken" }

abbrev pub job_config : Config
job_config = record {
  provider = "github";
  poll_interval = pos 300_000_000_000;
  dimensions = record { ecosystem = false; tool = true; severity = true };
  github = acme;
  gitlab = no_gitlab;
  lifecycle = record {
    enabled = true;
    resolution_window = pos 3_600_000_000_000;
    valkey_addr = "valkey:6379";
    valkey_password = "";
  };
}

pub job_loads : load ⦃u = plain⦄ job_environment "github" ≡ ok job_config
unfolding load load_github load_lifecycle load_provider github_settings lifecycle_settings
    base_settings getenv_default getenv_int64 getenv_duration validate_github_config
    validate_lifecycle parse_dimensions parse_duration add_dimensions split trim_space trim_right
    trim_left is_space
job_loads = refl

-- There is no GitLab group in this environment.
other_provider : failed (load ⦃u = plain⦄ job_environment "gitlab") ≡ true
unfolding load getenv_duration parse_duration validate_lifecycle lifecycle_settings base_settings
    load_gitlab validate_gitlab_config gitlab_settings
other_provider = refl

load-Usable_example : Usable "github" job_config
load-Usable_example = load-Usable ⦃u = plain⦄ job_environment "github" job_config job_loads

-- An App without its key's path, and no token.
abbrev partial_app : GitHubConfig
partial_app = record acme { token = ""; app_id = pos 7; app_installation_id = pos 8 }

parse_dimensions-join_example :
    parse_dimensions ⦃u = plain⦄ (join (char 44 tt) ("tool" ∷ " severity" ∷ "age" ∷ [])) ≡ record {
      ecosystem = names ⦃u = plain⦄ "ecosystem" ("tool" ∷ " severity" ∷ "age" ∷ []);
      tool = names ⦃u = plain⦄ "tool" ("tool" ∷ " severity" ∷ "age" ∷ []);
      severity = names ⦃u = plain⦄ "severity" ("tool" ∷ " severity" ∷ "age" ∷ []);
    }
parse_dimensions-join_example =
    parse_dimensions-join ⦃u = plain⦄ "tool" (" severity" ∷ "age" ∷ [])
      (refl, (refl, (refl, (refl, tt))))
      (
        (refl, (refl, (refl, (refl, (refl, (refl, (refl, (refl, (refl, tt))))))))),
        ((refl, (refl, (refl, tt))), tt),
      )

-- A label test that refuses one name.
abbrev one_bad : String → List String
one_bad ns = if ns == "Bad" then "must be lower case" ∷ [] else []

parse_watch_namespaces_lem_example :
    (failed (parse_watch_namespaces ⦃u = plain⦄ one_bad "team-a, team-b,,team-a")
      ≡ any
          (refused ⦃u = plain⦄ one_bad)
          (named ⦃u = plain⦄ (split (char 44 tt) "team-a, team-b,,team-a")))
    × Gives
        (Collects ⦃u = plain⦄ one_bad []
          (named ⦃u = plain⦄ (split (char 44 tt) "team-a, team-b,,team-a")))
        (parse_watch_namespaces ⦃u = plain⦄ one_bad "team-a, team-b,,team-a")
parse_watch_namespaces_lem_example =
    parse_watch_namespaces_lem ⦃u = plain⦄ one_bad "team-a, team-b,,team-a"

namespaces_once :
    parse_watch_namespaces ⦃u = plain⦄ one_bad "team-a, team-b,,team-a"
    ≡ ok ("team-a" ∷ "team-b" ∷ [])
unfolding parse_watch_namespaces split trim_space trim_right trim_left is_space
namespaces_once = refl

-- Durations with fractions and several units, a sign, and a number without a unit.
mixed_units : parse_duration "1h30m5.25s" ≡ some (pos 5_405_250_000_000)
unfolding parse_duration
mixed_units = refl

negative_duration : parse_duration "-1.5µs" ≡ some (negsuc 1499)
unfolding parse_duration
negative_duration = refl

no_unit : parse_duration "5" ≡ none
unfolding parse_duration
no_unit = refl
