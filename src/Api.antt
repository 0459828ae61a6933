-- ===== src/Api.antt =====
-- The custom resources of api/v1alpha1, and the Kubernetes objects that the operator reads and
-- writes, as far as it sets or reads their fields.
pub mod Webhook
pub mod Schema
use scm_metrics_exporter.Prelude.{ℕ, String, Bool, Option, List, [], ◌∷◌}
use scm_metrics_exporter.Prelude.Int.{ℤ}
use scm_metrics_exporter.Prelude.Assoc.{Map}
use scm_metrics_exporter.Prelude.Errors.{Error}

-- The value of an environment variable: a literal, or a key of a Secret.
pub data EnvSource : Type 0 where
  literal : String → EnvSource
  secret_key : (secret key : String) → EnvSource

pub record EnvVar : Type 0 where
  pub name : String
  pub value : EnvSource

-- A volume from one item of a Secret, with its file mode, or another one that a CR brings.
pub data VolumeSource : Type 0 where
  secret_item : (secret key path : String) → ℕ → VolumeSource
  other_source : String → VolumeSource

pub record Volume : Type 0 where
  pub name : String
  pub source : VolumeSource

pub record VolumeMount : Type 0 where
  pub name : String
  pub mount_path : String
  pub read_only : Bool

pub record RepoFilter : Type 0 where
  pub topics : List String
  pub visibility : List String
  pub name_patterns : List String
  pub archived : Option Bool

pub record AutoDiscover : Type 0 where
  pub include : RepoFilter
  pub exclude : RepoFilter

pub record ValkeyConfig : Type 0 where
  pub endpoint : String
  pub secret_ref : Option String
  pub password_key : String

-- The fields that both specs embed. Durations are nanoseconds.
pub record ExporterSpec : Type 0 where
  pub discovery_interval : ℤ
  pub parallelism : ℤ
  pub rate_limit_threshold : ℤ
  pub image : String
  pub resources : Map String String
  pub volumes : List Volume
  pub volume_mounts : List VolumeMount
  pub env : List EnvVar
  pub otlp_endpoint : String
  pub auto_discover : AutoDiscover
  pub finding_dimensions : List String
  pub collect_workflows : Bool
  pub workflow_lookback : ℤ
  pub credentials_secret : String
  pub collect_lifecycle : Bool
  pub resolution_window : ℤ
  pub valkey : Option ValkeyConfig

pub record GitHubSpec : Type 0 where
  pub exporter : ExporterSpec
  pub target_type : String
  pub org : String
  pub user : String
  pub auth_mode : String
  pub token_key : String
  pub app_id : ℤ
  pub app_installation_id : ℤ
  pub app_private_key_key : String
  pub code_scanning_tool : String

pub record GitLabSpec : Type 0 where
  pub exporter : ExporterSpec
  pub target_type : String
  pub group : String
  pub user : String
  pub token_key : String
  pub base_url : String

-- The Ready condition, the only one that the operator sets.
pub record Condition : Type 0 where
  pub ready : Bool
  pub reason : String
  pub observed_generation : ℕ

pub record ExporterStatus : Type 0 where
  pub observed_generation : ℕ
  pub discovered_repositories : List String
  pub last_discovery_time : Option ℤ
  pub condition : Option Condition

-- A custom resource with its spec.
pub record Resource (S : Type 0) : Type 0 where
  pub name : String
  pub namespace : String
  pub generation : ℕ
  pub spec : S
  pub status : ExporterStatus

-- A Secret's data.
abbrev pub Secret : Type 0
Secret = Map String String

-- The answer of a read: the object, none of that name, or another error.
pub data Fetched (A : Type 0) : Type 0 where
  found : A → Fetched A
  not_found : Fetched A
  fetch_failed : Error → Fetched A
