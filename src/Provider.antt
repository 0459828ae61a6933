-- ===== src/Provider.antt =====
-- The provider-neutral domain types of internal/provider/provider.go: snapshots, findings, rate
-- limits, remediation series, and the constants that label them.
pub mod Severity
pub mod Scope
pub mod Tally
pub mod Merge
pub mod Sources
use scm_metrics_exporter.Prelude.{ℕ, String, Bool, Option, none, some, List, [], ◌∷◌}
use scm_metrics_exporter.Prelude.Int.{ℤ}

-- One conclusion of one workflow, with the number of its recent runs.
pub record WorkflowRunStat : Type 0 where
  pub workflow : String
  pub conclusion : String
  pub count : ℕ

pub record RepoPosture : Type 0 where
  pub visibility : String
  pub archived : Bool
  pub dependabot_enabled : Bool
  pub branch_protected : Bool
  pub secret_scanning_enabled : Bool

-- An open finding. Instants are nanoseconds since Go's zero time, which is `pos 0`.
pub record Finding : Type 0 where
  pub severity : String
  pub category : String
  pub ecosystem : String
  pub tool : String
  pub created_at : ℤ

pub record ResolvedFinding : Type 0 where
  pub id : String
  pub category : String
  pub severity : String
  pub state : String
  pub resolution : String
  pub created_at : ℤ
  pub resolved_at : ℤ

pub record RateLimit : Type 0 where
  pub resource : String
  pub remaining : ℤ

pub record SourceError : Type 0 where
  pub source : String

pub record RepoMetrics : Type 0 where
  pub name : String
  pub open_review_items : ℕ
  pub findings : List Finding
  pub posture : Option RepoPosture
  pub workflow_runs : List WorkflowRunStat
  pub resolved_findings : List ResolvedFinding

pub record Snapshot : Type 0 where
  pub repos : List RepoMetrics
  pub rate_limits : List RateLimit
  pub source_errors : List SourceError

abbrev pub empty_snapshot : Snapshot
empty_snapshot = record { repos = []; rate_limits = []; source_errors = [] }

-- The upper bound of a histogram bucket in seconds: a finite one, or `math.Inf(1)`.
pub data Bound : Type 0 where
  finite : ℕ → Bound
  inf : Bound

pub record RemediationBucket : Type 0 where
  pub le : Bound
  pub count : ℤ

-- The sum is exact, in nanoseconds; the source keeps it as a float of seconds.
pub record RemediationSeries : Type 0 where
  pub provider : String
  pub repo : String
  pub category : String
  pub resolution : String
  pub severity : String
  pub buckets : List RemediationBucket
  pub sum : ℤ
  pub count : ℤ

-- The finite bounds of the remediation and open-age histograms, one hour to ninety days.
abbrev pub remediation_bucket_bounds : List ℕ
remediation_bucket_bounds =
    3600 ∷ 21600 ∷ 86400 ∷ 259200 ∷ 604800 ∷ 1209600 ∷ 2592000 ∷ 7776000 ∷ []

abbrev pub severity_critical : String
severity_critical = "critical"

abbrev pub severity_high : String
severity_high = "high"

abbrev pub severity_medium : String
severity_medium = "medium"

abbrev pub severity_low : String
severity_low = "low"

abbrev pub severity_unknown : String
severity_unknown = "unknown"

abbrev pub category_dependency : String
category_dependency = "dependency"

abbrev pub category_static_analysis : String
category_static_analysis = "static_analysis"

abbrev pub category_secret : String
category_secret = "secret"

abbrev pub category_container : String
category_container = "container"

abbrev pub source_graphql : String
source_graphql = "graphql"

abbrev pub source_rest : String
source_rest = "rest"

abbrev pub source_secret_scanning : String
source_secret_scanning = "secret_scanning"

abbrev pub source_workflows : String
source_workflows = "workflows"

abbrev pub source_lifecycle : String
source_lifecycle = "lifecycle"

abbrev pub resolution_fixed : String
resolution_fixed = "fixed"

abbrev pub resolution_dismissed_not_a_risk : String
resolution_dismissed_not_a_risk = "dismissed_not_a_risk"

abbrev pub resolution_dismissed_accepted_risk : String
resolution_dismissed_accepted_risk = "dismissed_accepted_risk"

abbrev pub state_open : String
state_open = "open"

abbrev pub state_fixed : String
state_fixed = "fixed"

abbrev pub state_dismissed : String
state_dismissed = "dismissed"

abbrev pub state_auto_dismissed : String
state_auto_dismissed = "auto_dismissed"

abbrev pub state_resolved : String
state_resolved = "resolved"

abbrev pub resource_graphql : String
resource_graphql = "graphql"

abbrev pub resource_rest : String
resource_rest = "rest"
