-- ===== src/Controller/Environment/Values.antt =====
-- The settings that a resource asks for, and the variables that carry them.
-- (internal/controller/render.go).
use Prim.Native.Char.{char}
use scm_metrics_exporter.Prelude.{
  String, ◌≡◌, refl, sym, ap, ◌∙◌, inl, inr, Bool, true, false, List, [], ◌∷◌, is_empty,
  if◌then◌else◌, ◌==◌, string_eq, Bool-cases, eq_of_beq, arith,
}
use scm_metrics_exporter.Prelude.Int.{pos}
use scm_metrics_exporter.Prelude.Assoc.{or_else}
use scm_metrics_exporter.Prelude.Text.Decimal.{format_int}
use scm_metrics_exporter.Prelude.Text.Duration.{format_duration}
use scm_metrics_exporter.Prelude.Text.Split.{join}
use scm_metrics_exporter.Api.{GitHubSpec}
use scm_metrics_exporter.Config.{
  GitHubConfig, LifecycleConfig, default_resolution_window, target_org,
}
use scm_metrics_exporter.Controller.Environment.{
  Secrets, valkey_addr, valkey_password, github_value,
}

join-nothing :
    (ds : List String) → (if is_empty ds then "" else join (char 44 tt) ds) ≡ join (char 44 tt) ds
unfolding join
join-nothing [] = refl
join-nothing (d ∷ ds) = refl

or_nothing : (s : String) → (if s == "" then "" else s) ≡ s
or_nothing s = elim (Bool-cases (s == "")) [
  | inl e ↦ rw e (sym (eq_of_beq s "" e))
  | inr e ↦ rw e refl
]

abbrev switch : Bool → String
switch b = if b then "true" else ""

switched : (b : Bool) → (switch b == "true") ≡ b
switched true = refl
switched false = refl

-- The settings that a resource asks for.
module _ (secrets : Secrets) (spec : GitHubSpec) where
  abbrev pub app : Bool
  app = spec.auth_mode == "app"

  abbrev pub github_wanted : GitHubConfig
  github_wanted = record {
    target_type = if spec.target_type == "" then target_org else spec.target_type;
    org = spec.org;
    user = spec.user;
    token = if app then "" else secrets spec.exporter.credentials_secret spec.token_key;
    app_id = if app then spec.app_id else pos 0;
    app_installation_id = if app then spec.app_installation_id else pos 0;
    app_private_key_path = if app then "/etc/scm/github-app/app.pem" else "";
    code_scanning_tool = spec.code_scanning_tool;
    collect_workflows = spec.exporter.collect_workflows;
    workflow_lookback =
        if spec.exporter.collect_workflows then spec.exporter.workflow_lookback else pos 0;
  }

  abbrev pub lifecycle_wanted : LifecycleConfig
  lifecycle_wanted = record {
    enabled = spec.exporter.collect_lifecycle;
    resolution_window =
        if spec.exporter.collect_lifecycle
        then spec.exporter.resolution_window
        else default_resolution_window;
    valkey_addr =
        if spec.exporter.collect_lifecycle
        then or_else "" (valkey_addr secrets spec.exporter.valkey)
        else "";
    valkey_password =
        if spec.exporter.collect_lifecycle
        then or_else "" (valkey_password secrets spec.exporter.valkey)
        else "";
  }

  abbrev pub value : String → String
  value n = or_else "" (github_value secrets n spec)

  pub poll-value : value "POLL_INTERVAL" ≡ ""
  poll-value = ground arith

  pub type-value : value "GITHUB_TARGET_TYPE" ≡ spec.target_type
  type-value = refl

  pub token-value : value "GITHUB_TOKEN" ≡ github_wanted.token
  token-value = ground arith

  pub dimensions-value :
      value "SCM_FINDING_DIMENSIONS" ≡ join (char 44 tt) spec.exporter.finding_dimensions
  dimensions-value =
      let found : value "SCM_FINDING_DIMENSIONS" ≡ (
          if is_empty spec.exporter.finding_dimensions
          then ""
          else join (char 44 tt) spec.exporter.finding_dimensions) =
        ground arith in
      found ∙ join-nothing spec.exporter.finding_dimensions

  pub tool-value : value "GITHUB_CODE_SCANNING_TOOL" ≡ spec.code_scanning_tool
  tool-value =
      let found : value "GITHUB_CODE_SCANNING_TOOL"
          ≡ (if spec.code_scanning_tool == "" then "" else spec.code_scanning_tool) =
        ground arith in
      found ∙ or_nothing spec.code_scanning_tool

  pub addr-value : value "VALKEY_ADDR" ≡ lifecycle_wanted.valkey_addr
  addr-value = ground arith

  pub password-value : value "VALKEY_PASSWORD" ≡ lifecycle_wanted.valkey_password
  password-value = ground arith

  pub enabled-value : (value "SCM_COLLECT_LIFECYCLE" == "true") ≡ spec.exporter.collect_lifecycle
  enabled-value =
      let found : value "SCM_COLLECT_LIFECYCLE"
          ≡ (if spec.exporter.collect_lifecycle then "true" else "") =
        ground arith in
      ap (λ v. v == "true") found ∙ switched spec.exporter.collect_lifecycle

  pub workflows-value :
      (value "GITHUB_COLLECT_WORKFLOWS" == "true") ≡ spec.exporter.collect_workflows
  workflows-value =
      let found : value "GITHUB_COLLECT_WORKFLOWS"
          ≡ (if spec.exporter.collect_workflows then "true" else "") =
        ground arith in
      ap (λ v. v == "true") found ∙ switched spec.exporter.collect_workflows

  pub window-value : value "SCM_RESOLUTION_WINDOW" ≡ (
      if spec.exporter.collect_lifecycle
      then format_duration spec.exporter.resolution_window
      else "")
  window-value = ground arith

  pub lookback-value : value "GITHUB_WORKFLOW_LOOKBACK" ≡ (
      if spec.exporter.collect_workflows
      then format_duration spec.exporter.workflow_lookback
      else "")
  lookback-value = ground arith

  pub app_id-value : value "GITHUB_APP_ID" ≡ (if app then format_int spec.app_id else "")
  app_id-value = ground arith

  pub installation-value :
      value "GITHUB_APP_INSTALLATION_ID" ≡ (if app then format_int spec.app_installation_id else "")
  installation-value = ground arith

  pub key_path-value : value "GITHUB_APP_PRIVATE_KEY_PATH" ≡ github_wanted.app_private_key_path
  key_path-value = ground arith
