-- ===== src/Config.antt =====
-- internal/config/config.go: the settings that the exporter reads from its environment.
pub mod Usable
pub mod Dimensions
use Prim.Native.Char.{char}
use Prim.Native.String
use scm_metrics_exporter.Prelude.{
  ℕ, String, Bool, true, false, not, ◌&&◌, ◌||◌, Option, none, some, List, [], ◌∷◌, ◌*◌,
  if◌then◌else◌, ◌==◌, string_eq,
}
use scm_metrics_exporter.Prelude.Int.{ℤ, pos, leb_ℤ, int_eq}
use scm_metrics_exporter.Prelude.Errors.{Error, message, Result, ok, err, ◌>>=◌}
use scm_metrics_exporter.Prelude.Text.{Unicode}
use scm_metrics_exporter.Prelude.Text.Split.{split}
use scm_metrics_exporter.Prelude.Text.Trim.{trim_space}
use scm_metrics_exporter.Prelude.Text.Decimal.{parse_int}
use scm_metrics_exporter.Prelude.Text.Durations.{parse_duration}

abbrev pub default_poll_interval : ℤ
default_poll_interval = pos (5 * 60_000_000_000)

abbrev pub default_resolution_window : ℤ
default_resolution_window = pos (90 * 24 * 3_600_000_000_000)

abbrev pub target_org : String
target_org = "org"

abbrev pub target_user : String
target_user = "user"

abbrev pub target_group : String
target_group = "group"

pub record LifecycleConfig : Type 0 where
  pub enabled : Bool
  pub resolution_window : ℤ
  pub valkey_addr : String
  pub valkey_password : String

pub record FindingDimensions : Type 0 where
  pub ecosystem : Bool
  pub tool : Bool
  pub severity : Bool

pub record GitHubConfig : Type 0 where
  pub target_type : String
  pub org : String
  pub user : String
  pub token : String
  pub app_id : ℤ
  pub app_installation_id : ℤ
  pub app_private_key_path : String
  pub code_scanning_tool : String
  pub collect_workflows : Bool
  pub workflow_lookback : ℤ

pub record GitLabConfig : Type 0 where
  pub target_type : String
  pub group : String
  pub user : String
  pub token : String
  pub base_url : String
  pub collect_workflows : Bool
  pub workflow_lookback : ℤ

pub record Config : Type 0 where
  pub provider : String
  pub poll_interval : ℤ
  pub dimensions : FindingDimensions
  pub github : GitHubConfig
  pub gitlab : GitLabConfig
  pub lifecycle : LifecycleConfig

-- Go's zero values.
abbrev pub no_github : GitHubConfig
no_github = record {
  target_type = "";
  org = "";
  user = "";
  token = "";
  app_id = pos 0;
  app_installation_id = pos 0;
  app_private_key_path = "";
  code_scanning_tool = "";
  collect_workflows = false;
  workflow_lookback = pos 0;
}

abbrev pub no_gitlab : GitLabConfig
no_gitlab = record {
  target_type = "";
  group = "";
  user = "";
  token = "";
  base_url = "";
  collect_workflows = false;
  workflow_lookback = pos 0;
}

-- `os.Getenv`: the empty text for a variable that is not set.
abbrev pub Environment : Type 0
Environment = String → String

unfoldable pub getenv_default : Environment → String → String → String
getenv_default env key def = if env key == "" then def else env key

abbrev pub parsed : String → Option ℤ → Result ℤ
parsed key (some n) = ok n
parsed key none = err (message (String.◌++◌ "config: " key))

unfoldable pub getenv_int64 : Environment → String → Result ℤ
getenv_int64 env key = if env key == "" then ok (pos 0) else parsed key (parse_int (env key))

abbrev pub positive : String → ℤ → Result ℤ
positive key d =
    if leb_ℤ d (pos 0)
    then err (message (String.◌++◌ (String.◌++◌ "config: " key) " must be positive"))
    else ok d

unfoldable pub getenv_duration : Environment → String → ℤ → Result ℤ
getenv_duration env key def =
    if env key == "" then ok def else parsed key (parse_duration (env key)) >>= positive key

-- No error for a GitHub target that is named and credentials that are complete.
unfoldable pub github_credentials : GitHubConfig → Option Error
github_credentials c =
    let id = not (c.app_id == pos 0) in
    let installation = not (c.app_installation_id == pos 0) in
    let path = not (c.app_private_key_path == "") in
    let complete = id && installation && path in
    let partial = not complete && (id || installation || path) in
    if complete
    then none
    else if not (c.token == "")
    then none
    else if partial
    then some (message "config: incomplete GitHub App auth")
    else some (message "config: no GitHub credentials")

unfoldable pub validate_github_config : GitHubConfig → Option Error
unfolding github_credentials
validate_github_config c =
    if c.target_type == target_org
    then (if c.org == ""
        then some (message "config: GITHUB_ORG is required (GITHUB_TARGET_TYPE=org)")
        else github_credentials c)
    else if c.target_type == target_user
    then (if c.user == ""
        then some (message "config: GITHUB_USER is required (GITHUB_TARGET_TYPE=user)")
        else github_credentials c)
    else some (message "config: invalid GITHUB_TARGET_TYPE")

abbrev gitlab_token : GitLabConfig → Option Error
gitlab_token c = if c.token == "" then some (message "config: GITLAB_TOKEN is required") else none

unfoldable pub validate_gitlab_config : GitLabConfig → Option Error
validate_gitlab_config c =
    if c.target_type == target_group
    then (if c.group == ""
        then some (message "config: GITLAB_GROUP is required (GITLAB_TARGET_TYPE=group)")
        else gitlab_token c)
    else if c.target_type == target_user
    then (if c.user == ""
        then some (message "config: GITLAB_USER is required (GITLAB_TARGET_TYPE=user)")
        else gitlab_token c)
    else some (message "config: invalid GITLAB_TARGET_TYPE")

-- A value that a check passes.
abbrev pub checked {ℓ} : {A : Type ℓ} → Option Error → A → Result A
checked none a = ok a
checked (some e) a = err e

unfoldable pub github_settings : Environment → (app_id installation lookback : ℤ) → GitHubConfig
unfolding getenv_default
github_settings env app_id installation lookback = record {
  target_type = getenv_default env "GITHUB_TARGET_TYPE" target_org;
  org = env "GITHUB_ORG";
  user = env "GITHUB_USER";
  token = env "GITHUB_TOKEN";
  app_id = app_id;
  app_installation_id = installation;
  app_private_key_path = env "GITHUB_APP_PRIVATE_KEY_PATH";
  code_scanning_tool = env "GITHUB_CODE_SCANNING_TOOL";
  collect_workflows = env "GITHUB_COLLECT_WORKFLOWS" == "true";
  workflow_lookback = lookback;
}

-- The case "github" of the switch in `Load`.
unfoldable pub load_github : Environment → Result GitHubConfig
load_github env = do
  app_id ← getenv_int64 env "GITHUB_APP_ID"
  installation ← getenv_int64 env "GITHUB_APP_INSTALLATION_ID"
  lookback ← getenv_duration env "GITHUB_WORKFLOW_LOOKBACK" (pos 0)
  let c = github_settings env app_id installation lookback
  checked (validate_github_config c) c

unfoldable pub gitlab_settings : Environment → ℤ → GitLabConfig
unfolding getenv_default
gitlab_settings env lookback = record {
  target_type = getenv_default env "GITLAB_TARGET_TYPE" target_group;
  group = env "GITLAB_GROUP";
  user = env "GITLAB_USER";
  token = env "GITLAB_TOKEN";
  base_url = env "GITLAB_URL";
  collect_workflows = env "GITLAB_COLLECT_WORKFLOWS" == "true";
  workflow_lookback = lookback;
}

-- The case "gitlab" of the switch in `Load`.
unfoldable pub load_gitlab : Environment → Result GitLabConfig
load_gitlab env = do
  lookback ← getenv_duration env "GITLAB_WORKFLOW_LOOKBACK" (pos 0)
  let c = gitlab_settings env lookback
  checked (validate_gitlab_config c) c

-- The settings of one provider, chosen by its name.
unfoldable pub load_provider : Environment → Config → Result Config
load_provider env c =
    if c.provider == "github"
    then (do g ← load_github env; ok (record c { github = g }))
    else if c.provider == "gitlab"
    then (do g ← load_gitlab env; ok (record c { gitlab = g }))
    else err (message "config: unknown provider (supported: github, gitlab)")

unfoldable pub lifecycle_settings : Environment → ℤ → LifecycleConfig
lifecycle_settings env window = record {
  enabled = env "SCM_COLLECT_LIFECYCLE" == "true";
  resolution_window = window;
  valkey_addr = env "VALKEY_ADDR";
  valkey_password = env "VALKEY_PASSWORD";
}

unfoldable pub validate_lifecycle : LifecycleConfig → Option Error
validate_lifecycle l =
    if l.enabled && l.valkey_addr == ""
    then some (message "config: SCM_COLLECT_LIFECYCLE=true requires VALKEY_ADDR")
    else none

unfoldable pub load_lifecycle : Environment → Result LifecycleConfig
load_lifecycle env = do
  window ← getenv_duration env "SCM_RESOLUTION_WINDOW" default_resolution_window
  let l = lifecycle_settings env window
  checked (validate_lifecycle l) l

module _ ⦃u : Unicode⦄ where
  -- What one part of the list turns on.
  unfoldable pub add_dimension : FindingDimensions → String → FindingDimensions
  add_dimension d part =
      if trim_space part == "ecosystem"
      then record d { ecosystem = true }
      else if trim_space part == "tool"
      then record d { tool = true }
      else if trim_space part == "severity"
      then record d { severity = true }
      else d

  unfoldable pub add_dimensions : FindingDimensions → List String → FindingDimensions
  unfolding add_dimension
  add_dimensions d [] = d
  add_dimensions d (part ∷ parts) = add_dimensions (add_dimension d part) parts

  unfoldable pub parse_dimensions : String → FindingDimensions
  parse_dimensions raw =
      add_dimensions (record { ecosystem = false; tool = false; severity = false })
        (split (char 44 tt) raw)

  -- The settings that do not depend on the provider.
  unfoldable pub base_settings : Environment → String → ℤ → LifecycleConfig → Config
  base_settings env name poll lifecycle = record {
    provider = name;
    poll_interval = poll;
    dimensions = parse_dimensions (env "SCM_FINDING_DIMENSIONS");
    github = no_github;
    gitlab = no_gitlab;
    lifecycle = lifecycle;
  }

  unfoldable pub load : Environment → String → Result Config
  unfolding load_lifecycle load_provider
  load env provider_name = do
    poll ← getenv_duration env "POLL_INTERVAL" default_poll_interval
    lifecycle ← load_lifecycle env
    load_provider env (base_settings env provider_name poll lifecycle)

-- `Config.Target`.
unfoldable pub target : Config → String
target c =
    if c.provider == "gitlab"
    then (if c.gitlab.target_type == target_user then c.gitlab.user else c.gitlab.group)
    else if c.github.target_type == target_user
    then c.github.user
    else c.github.org
