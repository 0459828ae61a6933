-- ===== src/Controller/Environment.antt =====
-- The environment that a Job's container gives the exporter (internal/controller/render.go).
pub mod Values
pub mod Loaded
pub mod Admitted
use Prim.Native.String
use scm_metrics_exporter.Prelude.{
  String, ◌≡◌, refl, sym, ap, ◌∙◌, inl, inr, Bool, true, false, ◌||◌, Option, none, some, List, [],
  ◌∷◌, ◌++◌, contains, is_empty, if◌then◌else◌, ◌==◌, string_eq, Bool-cases, Option-cases, arith,
}
use text.Mathlib.TextEquality.{eq_iff}
use scm_metrics_exporter.Prelude.Assoc.{or_else}
use scm_metrics_exporter.Api.{
  EnvVar, EnvSource, literal, secret_key, ValkeyConfig, ExporterSpec, GitHubSpec, Resource,
}
use scm_metrics_exporter.Controller.Render.{
  var, secret_var, valkey_env, common_exporter_env, workflow_env, github_env, app_pem_mount_path,
  app_pem_file_name,
}
use scm_metrics_exporter.Prelude.Text.Decimal.{format_int}
use scm_metrics_exporter.Prelude.Text.Duration.{format_duration}
use scm_metrics_exporter.Prelude.Text.Split.{join}
use Prim.Native.Char.{char}

-- The data of the Secrets, by the name of the Secret and its key.
abbrev pub Secrets : Type 0
Secrets = String → String → String

abbrev pub first : Option String → Option String → Option String
first (some v) o = some v
first none o = o

module _ (secrets : Secrets) where
  abbrev pub resolved : EnvSource → String
  resolved (literal v) = v
  resolved (secret_key secret key) = secrets secret key

  -- The value of a variable, if the container has it.
  abbrev pub value_in : String → List EnvVar → Option String
  value_in n [] = none
  value_in n (v ∷ vs) = if v.name == n then some (resolved v.value) else value_in n vs

  value_in-append :
      (n : String) (xs ys : List EnvVar)
      → value_in n (xs ++ ys) ≡ first (value_in n xs) (value_in n ys)
  value_in-append n [] ys = refl
  value_in-append n (x ∷ xs) ys = elim (Bool-cases (x.name == n)) [
    | inl e ↦ rw e refl
    | inr e ↦ rw e (value_in-append n xs ys)
  ]

  value_in-if :
      (n : String) (b : Bool) (xs ys : List EnvVar)
      → value_in n (if b then xs else ys) ≡ (if b then value_in n xs else value_in n ys)
  value_in-if n true xs ys = refl
  value_in-if n false xs ys = refl

  -- What the Valkey settings give.
  abbrev pub valkey_addr : Option ValkeyConfig → Option String
  valkey_addr none = none
  valkey_addr (some v) = some v.endpoint

  abbrev password_of : String → Option String → Option String
  password_of key none = none
  password_of key (some ref) = some (secrets ref (if key == "" then "password" else key))

  abbrev pub valkey_password : Option ValkeyConfig → Option String
  valkey_password none = none
  valkey_password (some v) = password_of v.password_key v.secret_ref

  abbrev pub valkey_value : String → Option ValkeyConfig → Option String
  valkey_value n v =
      if "VALKEY_ADDR" == n
      then valkey_addr v
      else if "VALKEY_PASSWORD" == n
      then valkey_password v
      else none

  value_in-valkey_env :
      (n : String) (v : Option ValkeyConfig) → value_in n (valkey_env v) ≡ valkey_value n v
  unfolding valkey_env
  value_in-valkey_env n none = ground arith
  value_in-valkey_env n (some v) = elim (Option-cases v.secret_ref) [
    | inl e ↦ rw e (ground arith)
    | inr (ref, e) ↦ rw e (ground arith)
  ]

  -- The variables that both providers set.
  abbrev dimensions_value : String → ExporterSpec → Option String
  dimensions_value n spec =
      if is_empty spec.finding_dimensions
      then none
      else value_in n
          (var "SCM_FINDING_DIMENSIONS" (join (char 44 tt) spec.finding_dimensions) ∷ [])

  abbrev lifecycle_value : String → ExporterSpec → Option String
  lifecycle_value n spec =
      if spec.collect_lifecycle
      then (if "SCM_COLLECT_LIFECYCLE" == n
          then some "true"
          else if "SCM_RESOLUTION_WINDOW" == n
          then some (format_duration spec.resolution_window)
          else valkey_value n spec.valkey)
      else none

  abbrev common_value : String → ExporterSpec → Option String
  common_value n spec =
      if "OTEL_METRICS_EXPORTER" == n
      then some "otlp"
      else if "OTEL_EXPORTER_OTLP_METRICS_ENDPOINT" == n
      then some spec.otlp_endpoint
      else first (dimensions_value n spec) (lifecycle_value n spec)

  value_in-common :
      (n : String) (spec : ExporterSpec)
      → value_in n (common_exporter_env spec) ≡ common_value n spec
  unfolding common_exporter_env
  value_in-common n spec =
      let dims =
        if is_empty spec.finding_dimensions
        then []
        else var "SCM_FINDING_DIMENSIONS" (join (char 44 tt) spec.finding_dimensions) ∷ [] in
      let life =
        if spec.collect_lifecycle
        then var "SCM_COLLECT_LIFECYCLE" "true"
          ∷ var "SCM_RESOLUTION_WINDOW" (format_duration spec.resolution_window)
          ∷ valkey_env spec.valkey
        else [] in
      let first_part : value_in n dims ≡ dimensions_value n spec =
        value_in-if n (is_empty spec.finding_dimensions) [] _ in
      let second_part : value_in n life ≡ lifecycle_value n spec =
        value_in-if n spec.collect_lifecycle _ []
        ∙ ap
            (λ o.
              if spec.collect_lifecycle
              then (if "SCM_COLLECT_LIFECYCLE" == n
                  then some "true"
                  else if "SCM_RESOLUTION_WINDOW" == n
                  then some (format_duration spec.resolution_window)
                  else o)
              else none)
            (value_in-valkey_env n spec.valkey) in
      ap
        (λ o.
          if "OTEL_METRICS_EXPORTER" == n
          then some "otlp"
          else if "OTEL_EXPORTER_OTLP_METRICS_ENDPOINT" == n
          then some spec.otlp_endpoint
          else o)
        (value_in-append n dims life
          ∙ ap (λ o. first o (value_in n life)) first_part
          ∙ ap (λ o. first (dimensions_value n spec) o) second_part)

  abbrev workflow_value : String → String → ExporterSpec → Option String
  workflow_value n prefix spec =
      if spec.collect_workflows
      then (if String.◌++◌ prefix "_COLLECT_WORKFLOWS" == n
          then some "true"
          else if String.◌++◌ prefix "_WORKFLOW_LOOKBACK" == n
          then some (format_duration spec.workflow_lookback)
          else none)
      else none

  value_in-workflow :
      (n prefix : String) (spec : ExporterSpec)
      → value_in n (workflow_env prefix spec) ≡ workflow_value n prefix spec
  unfolding workflow_env
  value_in-workflow n prefix spec = value_in-if n spec.collect_workflows _ []

  abbrev auth_value : String → GitHubSpec → Option String
  auth_value n spec =
      if spec.auth_mode == "app"
      then (if "GITHUB_APP_ID" == n
          then some (format_int spec.app_id)
          else if "GITHUB_APP_INSTALLATION_ID" == n
          then some (format_int spec.app_installation_id)
          else if "GITHUB_APP_PRIVATE_KEY_PATH" == n
          then some "/etc/scm/github-app/app.pem"
          else none)
      else if "GITHUB_TOKEN" == n
      then some (secrets spec.exporter.credentials_secret spec.token_key)
      else none

  abbrev tool_value : String → GitHubSpec → Option String
  tool_value n spec =
      if spec.code_scanning_tool == ""
      then none
      else if "GITHUB_CODE_SCANNING_TOOL" == n
      then some spec.code_scanning_tool
      else none

  abbrev pub github_value : String → GitHubSpec → Option String
  github_value n spec =
      if "GITHUB_TARGET_TYPE" == n
      then some spec.target_type
      else if "GITHUB_ORG" == n
      then some spec.org
      else if "GITHUB_USER" == n
      then some spec.user
      else first (common_value n spec.exporter) (
          first (tool_value n spec)
            (first (workflow_value n "GITHUB" spec.exporter) (auth_value n spec)))

  -- The value of each variable in the environment of a GitHub Job.
  pub value_in-github_env :
      (n : String) (cr : Resource GitHubSpec) → value_in n (github_env cr) ≡ github_value n cr.spec
  unfolding github_env
  value_in-github_env n cr =
      let spec = cr.spec in
      let common = common_exporter_env spec.exporter in
      let tool =
        if spec.code_scanning_tool == ""
        then []
        else var "GITHUB_CODE_SCANNING_TOOL" spec.code_scanning_tool ∷ [] in
      let workflows = workflow_env "GITHUB" spec.exporter in
      let auth =
        if spec.auth_mode == "app"
        then var "GITHUB_APP_ID" (format_int spec.app_id)
          ∷ var "GITHUB_APP_INSTALLATION_ID" (format_int spec.app_installation_id)
          ∷ var "GITHUB_APP_PRIVATE_KEY_PATH"
              (String.◌++◌ (String.◌++◌ app_pem_mount_path "/") app_pem_file_name)
          ∷ []
        else secret_var "GITHUB_TOKEN" spec.exporter.credentials_secret spec.token_key ∷ [] in
      ap
        (λ o.
          if "GITHUB_TARGET_TYPE" == n
          then some spec.target_type
          else if "GITHUB_ORG" == n
          then some spec.org
          else if "GITHUB_USER" == n
          then some spec.user
          else o)
        (value_in-append n common (tool ++ (workflows ++ auth))
          ∙ ap (λ o. first o (value_in n (tool ++ (workflows ++ auth))))
              (value_in-common n spec.exporter)
          ∙ ap (λ o. first (common_value n spec.exporter) o)
              (value_in-append n tool (workflows ++ auth)
                ∙ ap (λ o. first o (value_in n (workflows ++ auth)))
                    (value_in-if n (spec.code_scanning_tool == "") [] _)
                ∙ ap (λ o. first (tool_value n spec) o)
                    (value_in-append n workflows auth
                      ∙ ap (λ o. first o (value_in n auth))
                          (value_in-workflow n "GITHUB" spec.exporter)
                      ∙ ap (λ o. first (workflow_value n "GITHUB" spec.exporter) o)
                          (value_in-if n (spec.auth_mode == "app") _ _))))
