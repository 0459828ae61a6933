-- ===== src/Controller/Render.antt =====
-- internal/controller/render.go: the collection Job of one repository and its environment. The
-- restricted security contexts are constants and stand here as their names.
use Prim.Native.Char.{char}
use Prim.Native.String
use scm_metrics_exporter.Prelude.{
  ℕ, String, true, Option, none, some, List, [], ◌∷◌, ◌++◌, is_empty, if◌then◌else◌, ◌==◌,
  string_eq,
}
use scm_metrics_exporter.Prelude.Assoc.{Map}
use scm_metrics_exporter.Prelude.Text.{Unicode}
use scm_metrics_exporter.Prelude.Text.Split.{join}
use scm_metrics_exporter.Prelude.Text.Decimal.{format_int}
use scm_metrics_exporter.Prelude.Text.Duration.{format_duration}
use scm_metrics_exporter.Api.{
  EnvVar, literal, secret_key, Volume, secret_item, VolumeMount, ValkeyConfig, ExporterSpec,
  GitHubSpec, GitLabSpec, Resource,
}
use scm_metrics_exporter.Controller.Names.{job_name}

abbrev pub container_name : String
container_name = "exporter"

abbrev pub app_key_volume : String
app_key_volume = "github-app-key"

abbrev pub app_pem_mount_path : String
app_pem_mount_path = "/etc/scm/github-app"

abbrev pub app_pem_file_name : String
app_pem_file_name = "app.pem"

abbrev pub job_backoff_limit : ℕ
job_backoff_limit = 2

abbrev pub job_ttl_seconds : ℕ
job_ttl_seconds = 600

unfoldable pub selector_labels : String → Map String String
selector_labels instance_name =
    ("app.kubernetes.io/name", "scm-metrics-exporter")
    ∷ ("app.kubernetes.io/instance", instance_name)
    ∷ ("app.kubernetes.io/managed-by", "scm-metrics-operator")
    ∷ []

pub record Container : Type 0 where
  pub name : String
  pub image : String
  pub command : List String
  pub args : List String
  pub env : List EnvVar
  pub resources : Map String String
  pub volume_mounts : List VolumeMount
  pub security_context : String

-- A Job with its pod template, and the numbers of pods that its status reports.
pub record Job : Type 0 where
  pub name : String
  pub namespace : String
  pub labels : Map String String
  pub backoff_limit : ℕ
  pub ttl_seconds : ℕ
  pub template_labels : Map String String
  pub restart_policy : String
  pub container : Container
  pub volumes : List Volume
  pub pod_security_context : String
  pub succeeded : ℕ
  pub failed : ℕ

-- What a provider supplies for a Job.
pub record RenderInput : Type 0 where
  pub cr_name : String
  pub namespace : String
  pub repo : String
  pub image : String
  pub provider : String
  pub spec : ExporterSpec
  pub env : List EnvVar
  pub volumes : List Volume
  pub mounts : List VolumeMount

abbrev pub var : String → String → EnvVar
var name value = record { name = name; value = literal value }

abbrev pub secret_var : String → String → String → EnvVar
secret_var name secret key = record { name = name; value = secret_key secret key }

unfoldable pub valkey_env : Option ValkeyConfig → List EnvVar
valkey_env none = []
valkey_env (some v) =
    let password = λ (ref : String).
      secret_var "VALKEY_PASSWORD" ref (if v.password_key == "" then "password" else v.password_key)
      ∷ [] in
    var "VALKEY_ADDR" v.endpoint ∷ (elim v.secret_ref [ none ↦ [] | some ref ↦ password ref ])

unfoldable pub common_exporter_env : ExporterSpec → List EnvVar
common_exporter_env spec =
    var "OTEL_METRICS_EXPORTER" "otlp"
    ∷ var "OTEL_EXPORTER_OTLP_METRICS_ENDPOINT" spec.otlp_endpoint
    ∷ ((if is_empty spec.finding_dimensions
          then []
          else var "SCM_FINDING_DIMENSIONS" (join (char 44 tt) spec.finding_dimensions) ∷ [])
        ++ (if spec.collect_lifecycle
            then var "SCM_COLLECT_LIFECYCLE" "true"
              ∷ var "SCM_RESOLUTION_WINDOW" (format_duration spec.resolution_window)
              ∷ valkey_env spec.valkey
            else []))

unfoldable pub workflow_env : String → ExporterSpec → List EnvVar
workflow_env prefix spec =
    if spec.collect_workflows
    then var (String.◌++◌ prefix "_COLLECT_WORKFLOWS") "true"
      ∷ var (String.◌++◌ prefix "_WORKFLOW_LOOKBACK") (format_duration spec.workflow_lookback)
      ∷ []
    else []

unfoldable pub github_env : Resource GitHubSpec → List EnvVar
github_env cr =
    let spec = cr.spec in
    var "GITHUB_TARGET_TYPE" spec.target_type
    ∷ var "GITHUB_ORG" spec.org
    ∷ var "GITHUB_USER" spec.user
    ∷ (common_exporter_env spec.exporter
        ++ ((if spec.code_scanning_tool == ""
              then []
              else var "GITHUB_CODE_SCANNING_TOOL" spec.code_scanning_tool ∷ [])
            ++ (workflow_env "GITHUB" spec.exporter
                ++ (if spec.auth_mode == "app"
                    then var "GITHUB_APP_ID" (format_int spec.app_id)
                      ∷ var "GITHUB_APP_INSTALLATION_ID" (format_int spec.app_installation_id)
                      ∷ var "GITHUB_APP_PRIVATE_KEY_PATH"
                          (String.◌++◌ (String.◌++◌ app_pem_mount_path "/") app_pem_file_name)
                      ∷ []
                    else secret_var "GITHUB_TOKEN" spec.exporter.credentials_secret spec.token_key
                      ∷ []))))

unfoldable pub github_credential_volume : Resource GitHubSpec → List Volume × List VolumeMount
github_credential_volume cr =
    let spec = cr.spec in
    let volume : Volume = record {
      name = app_key_volume;
      source =
          secret_item spec.exporter.credentials_secret spec.app_private_key_key app_pem_file_name
            288;
    } in
    let mount : VolumeMount = record {
      name = app_key_volume;
      mount_path = app_pem_mount_path;
      read_only = true;
    } in
    if spec.auth_mode == "app" then (volume ∷ [], mount ∷ []) else ([], [])

unfoldable pub gitlab_env : Resource GitLabSpec → List EnvVar
gitlab_env cr =
    let spec = cr.spec in
    var "GITLAB_TARGET_TYPE" spec.target_type
    ∷ var "GITLAB_GROUP" spec.group
    ∷ var "GITLAB_USER" spec.user
    ∷ (common_exporter_env spec.exporter
        ++ ((if spec.base_url == "" then [] else var "GITLAB_URL" spec.base_url ∷ [])
            ++ (workflow_env "GITLAB" spec.exporter
                ++ secret_var "GITLAB_TOKEN" spec.exporter.credentials_secret spec.token_key ∷ [])))

module _ ⦃u : Unicode⦄ where
  unfoldable pub collection_job : RenderInput → Job
  collection_job i =
      let labels = selector_labels i.cr_name in
      let container : Container = record {
        name = container_name;
        image = i.image;
        command = "/exporter" ∷ [];
        args = String.◌++◌ "--provider=" i.provider ∷ "--once" ∷ String.◌++◌ "--repo=" i.repo ∷ [];
        env = i.env ++ i.spec.env;
        resources = i.spec.resources;
        volume_mounts = i.mounts ++ i.spec.volume_mounts;
        security_context = "restricted";
      } in
      record {
        name = job_name i.cr_name i.repo;
        namespace = i.namespace;
        labels = labels;
        backoff_limit = job_backoff_limit;
        ttl_seconds = job_ttl_seconds;
        template_labels = labels;
        restart_policy = "Never";
        container = container;
        volumes = i.volumes ++ i.spec.volumes;
        pod_security_context = "restricted";
        succeeded = 0;
        failed = 0;
      }

  unfoldable pub github_job : Resource GitHubSpec → String → String → Job
  github_job cr image repo =
      let (volumes, mounts) = github_credential_volume cr in
      collection_job (record {
        cr_name = cr.name;
        namespace = cr.namespace;
        repo = repo;
        image = image;
        provider = "github";
        spec = cr.spec.exporter;
        env = github_env cr;
        volumes = volumes;
        mounts = mounts;
      })

  unfoldable pub gitlab_job : Resource GitLabSpec → String → String → Job
  gitlab_job cr image repo = collection_job (record {
    cr_name = cr.name;
    namespace = cr.namespace;
    repo = repo;
    image = image;
    provider = "gitlab";
    spec = cr.spec.exporter;
    env = gitlab_env cr;
    volumes = [];
    mounts = [];
  })
