-- ===== src/Metrics.antt =====
-- internal/metrics/metrics.go: what the callbacks observe. An observation is an instrument, a value
-- and its attributes; the values of the two float gauges and of the float counter are kept exactly,
-- in nanoseconds. The registration of the instruments and the exporter are OpenTelemetry's.
pub mod Findings
pub mod States
pub mod OpenAge
pub mod Remediation
use Prim.Native.Char.{Char, code, nul}
use Prim.Native.String
use scm_metrics_exporter.Prelude.{
  ℕ, ◌+◌, String, Bool, Option, none, some, List, [], ◌∷◌, ◌++◌, map, if◌then◌else◌, ◌==◌,
  string_eq, nat_eq, pair_eq,
}
use scm_metrics_exporter.Prelude.Int.{ℤ, pos, ◌+ℤ◌, sub_time, is_zero}
use scm_metrics_exporter.Prelude.Assoc.{Map, get, adjust}
use scm_metrics_exporter.Prelude.Tallies.{count_by}
use scm_metrics_exporter.Prelude.Text.Decimal.{format_nat, format_bool}
use scm_metrics_exporter.Prelude.Errors.{Error, Result, ok, err}
use scm_metrics_exporter.Provider.{
  Snapshot, RepoMetrics, RepoPosture, Finding, ResolvedFinding, RateLimit, WorkflowRunStat, Bound,
  finite, inf, RemediationSeries, RemediationBucket, remediation_bucket_bounds, state_open,
}
use scm_metrics_exporter.Store.{within}

pub data Instrument : Type 0 where
  review_items_open security_findings rate_limit_remaining scrape_errors repo_info workflow_runs :
      Instrument
  findings_by_state remediation_bucket remediation_sum remediation_count : Instrument
  open_age_bucket open_age_sum open_age_count : Instrument

pub record Observation : Type 0 where
  pub instrument : Instrument
  pub value : ℤ
  pub attributes : List (String × String)

pub record Dimensions : Type 0 where
  pub ecosystem : Bool
  pub tool : Bool
  pub severity : Bool

-- severity, category, ecosystem, tool
abbrev pub FindingKey : Type 0
FindingKey = String × (String × (String × String))

abbrev pub finding_key : Dimensions → Finding → FindingKey
finding_key dims f = (
  f.severity,
  (f.category, (if dims.ecosystem then f.ecosystem else "", if dims.tool then f.tool else "")),
)

-- An attribute that is left out when it is empty.
abbrev pub optional : String → String → List (String × String)
optional name value = if value == "" then [] else (name, value) ∷ []

abbrev pub repo_base : String → String → List (String × String)
repo_base name repo = ("provider", name) ∷ ("repo", repo) ∷ []

unfoldable pub finding_attributes : String → String → FindingKey → List (String × String)
finding_attributes name repo (severity, (category, (ecosystem, tool))) =
    ("provider", name)
    ∷ ("repo", repo)
    ∷ ("severity", severity)
    ∷ ("category", category)
    ∷ (optional "ecosystem" ecosystem ++ optional "tool" tool)

unfoldable pub finding_counts : Dimensions → List Finding → Map FindingKey ℕ
finding_counts dims fs = count_by (finding_key dims) fs []

unfoldable pub observe_findings : Dimensions → String → RepoMetrics → List Observation
observe_findings dims name repo =
    map
      (λ (key, n). record {
        instrument = security_findings;
        value = pos n;
        attributes = finding_attributes name repo.name key;
      })
      (finding_counts dims repo.findings)

unfoldable pub observe_posture : String → String → Option RepoPosture → List Observation
observe_posture name repo none = []
observe_posture name repo (some p) =
    record {
      instrument = repo_info;
      value = pos 1;
      attributes =
          ("provider", name)
          ∷ ("repo", repo)
          ∷ ("visibility", p.visibility)
          ∷ ("archived", format_bool p.archived)
          ∷ ("branch_protected", format_bool p.branch_protected)
          ∷ ("dependabot_enabled", format_bool p.dependabot_enabled)
          ∷ ("secret_scanning_enabled", format_bool p.secret_scanning_enabled)
          ∷ [];
    }
    ∷ []

unfoldable pub observe_workflow_runs : String → RepoMetrics → List Observation
observe_workflow_runs name repo =
    map
      (λ wf. record {
        instrument = workflow_runs;
        value = pos wf.count;
        attributes =
            ("provider", name)
            ∷ ("repo", repo.name)
            ∷ ("workflow", wf.workflow)
            ∷ ("conclusion", wf.conclusion)
            ∷ [];
      })
      repo.workflow_runs

-- "category\x00state"
unfoldable pub state_key : String → String → String
state_key category state = String.◌++◌ category (String.◌∷◌ nul state)

-- `strings.SplitN(key, "\x00", 2)` at a key that holds the separator.
unfoldable pub cut : Char → String → String × String
cut sep String.[] = ("", "")
cut sep (String.◌∷◌ c s) =
    let (before, after) = cut sep s in
    if code c == code sep then ("", s) else (String.◌∷◌ c before, after)

-- The keys that are bumped: one for each open finding, then one for each resolved finding.
abbrev pub state_keys : RepoMetrics → List String
state_keys repo =
    map (λ (f : Finding). state_key f.category state_open) repo.findings
    ++ map (λ (rf : ResolvedFinding). state_key rf.category rf.state) repo.resolved_findings

unfoldable pub state_counts : RepoMetrics → Map String ℕ
state_counts repo = count_by (λ k. k) (state_keys repo) []

unfoldable pub observe_states : String → RepoMetrics → List Observation
observe_states name repo =
    map
      (λ (key, n).
        let (category, state) = cut nul key in
        record {
          instrument = findings_by_state;
          value = pos n;
          attributes =
              ("provider", name)
              ∷ ("repo", repo.name)
              ∷ ("category", category)
              ∷ ("state", state)
              ∷ [];
        })
      (state_counts repo)

-- One category's open-age histogram.
pub record OpenAgeAcc : Type 0 where
  pub buckets : Map ℕ ℕ
  pub inf_count : ℕ
  pub count : ℕ
  pub sum : ℤ

abbrev pub empty_acc : OpenAgeAcc
empty_acc = record { buckets = []; inf_count = 0; count = 0; sum = pos 0 }

unfoldable pub bump_buckets : ℤ → List ℕ → Map ℕ ℕ → Map ℕ ℕ
bump_buckets age [] m = m
bump_buckets age (le ∷ les) m =
    bump_buckets age les (if within age le then adjust 0 (λ n. n + 1) le m else m)

unfoldable pub age_finding : ℤ → OpenAgeAcc → OpenAgeAcc
age_finding age acc = record {
  buckets = bump_buckets age remediation_bucket_bounds acc.buckets;
  inf_count = acc.inf_count + 1;
  count = acc.count + 1;
  sum = acc.sum +ℤ age;
}

unfoldable pub open_ages : ℤ → List Finding → Map String OpenAgeAcc → Map String OpenAgeAcc
open_ages now [] m = m
open_ages now (f ∷ fs) m = open_ages now fs (
    if is_zero f.created_at
    then m
    else adjust empty_acc (age_finding (sub_time now f.created_at)) f.category m)

unfoldable pub format_le : Bound → String
format_le inf = "+Inf"
format_le (finite le) = format_nat le

unfoldable pub observe_acc : List (String × String) → OpenAgeAcc → List Observation
observe_acc base acc =
    map
      (λ le. record {
        instrument = open_age_bucket;
        value = pos (get 0 le acc.buckets);
        attributes = base ++ ("le", format_le (finite le)) ∷ [];
      })
      remediation_bucket_bounds
    ++ record {
      instrument = open_age_bucket;
      value = pos acc.inf_count;
      attributes = base ++ ("le", format_le inf) ∷ [];
    }
      ∷ record { instrument = open_age_count; value = pos acc.count; attributes = base }
      ∷ record { instrument = open_age_sum; value = acc.sum; attributes = base }
      ∷ []

unfoldable pub observe_accs : String → String → Map String OpenAgeAcc → List Observation
observe_accs name repo [] = []
observe_accs name repo ((category, acc) ∷ m) =
    observe_acc (("provider", name) ∷ ("repo", repo) ∷ ("category", category) ∷ []) acc
    ++ observe_accs name repo m

abbrev pub observe_open_age : String → RepoMetrics → ℤ → List Observation
observe_open_age name repo now = observe_accs name repo.name (open_ages now repo.findings [])

unfoldable pub observe_repo : String → Dimensions → ℤ → RepoMetrics → List Observation
observe_repo name dims now repo =
    record {
      instrument = review_items_open;
      value = pos repo.open_review_items;
      attributes = repo_base name repo.name;
    }
    ∷ (observe_posture name repo.name repo.posture
        ++ observe_findings dims name repo
        ++ observe_workflow_runs name repo
        ++ observe_states name repo
        ++ observe_open_age name repo now)

unfoldable pub observe_repos : String → Dimensions → ℤ → List RepoMetrics → List Observation
observe_repos name dims now [] = []
observe_repos name dims now (r ∷ rs) =
    observe_repo name dims now r ++ observe_repos name dims now rs

unfoldable pub observe_rate_limits : String → List RateLimit → List Observation
observe_rate_limits name rls =
    map
      (λ rl. record {
        instrument = rate_limit_remaining;
        value = rl.remaining;
        attributes = ("provider", name) ∷ ("resource", rl.resource) ∷ [];
      })
      rls

unfoldable pub observe_snapshot : String → Snapshot → Dimensions → ℤ → List Observation
observe_snapshot name snap dims now =
    observe_repos name dims now snap.repos ++ observe_rate_limits name snap.rate_limits

-- The gauge callback: every provider that has a snapshot, all at one observation time.
unfoldable pub gauge_callback :
    List String → (String → Option Snapshot) → Dimensions → ℤ → List Observation
gauge_callback [] latest dims now = []
gauge_callback (name ∷ names) latest dims now =
    let rest = gauge_callback names latest dims now in
    elim (latest name) [ none ↦ rest | some snap ↦ observe_snapshot name snap dims now ++ rest ]

abbrev pub series_base : RemediationSeries → List (String × String)
series_base s =
    ("provider", s.provider)
    ∷ ("repo", s.repo)
    ∷ ("category", s.category)
    ∷ ("resolution", s.resolution)
    ∷ optional "severity" s.severity

unfoldable pub observe_series : RemediationSeries → List Observation
observe_series s =
    map
      (λ (b : RemediationBucket). record {
        instrument = remediation_bucket;
        value = b.count;
        attributes = series_base s ++ ("le", format_le b.le) ∷ [];
      })
      s.buckets
    ++ record { instrument = remediation_sum; value = s.sum; attributes = series_base s }
      ∷ record { instrument = remediation_count; value = s.count; attributes = series_base s }
      ∷ []

unfoldable pub observe_all_series : List RemediationSeries → List Observation
observe_all_series [] = []
observe_all_series (s ∷ ss) = observe_series s ++ observe_all_series ss

-- The remediation callback observes nothing when the read fails.
unfoldable pub remediation_callback :
    Result (List RemediationSeries) → Option Error × List Observation
remediation_callback (err e) = (some e, [])
remediation_callback (ok series) = (none, observe_all_series series)

-- The recorder of the scrape-error counter.
unfoldable pub record_scrape_error : String → String → Observation
record_scrape_error provider_name source = record {
  instrument = scrape_errors;
  value = pos 1;
  attributes = ("provider", provider_name) ∷ optional "source" source;
}
