-- ===== src/Examples/Metrics.antt =====
-- Examples about internal/metrics/metrics.go.
use Prim.Native.Char.{nul}
use scm_metrics_exporter.Prelude.{
  ℕ, ◌+◌, String, ◌≡◌, refl, true, false, ◌&&◌, List, [], ◌∷◌, count, length, none, ◌==◌, string_eq,
  nat_eq, pair_eq,
}
use scm_metrics_exporter.Prelude.Assoc.{get}
use scm_metrics_exporter.Prelude.Text.Split.{Lacks}
use scm_metrics_exporter.Provider.{Finding, ResolvedFinding, RepoMetrics, state_open}
use scm_metrics_exporter.Store.{nanos, series_of, hist_key, within}
use scm_metrics_exporter.Store.Histogram.{run}
use scm_metrics_exporter.Store.Memory.{memory, memory-IsRedis, no_tables}
use scm_metrics_exporter.Metrics.{
  Dimensions, state_key, state_counts, cut, open_ages, empty_acc, observe_series,
}
use scm_metrics_exporter.Metrics.States.{state_counts_lem}
use scm_metrics_exporter.Metrics.OpenAge.{ages, total_age, open_ages_lem}
use scm_metrics_exporter.Metrics.Remediation.{Rises, bucket_values, observe_series-Rises}
use scm_metrics_exporter.Examples.Provider.{api_secrets}
use scm_metrics_exporter.Examples.Store.{events, empty-IsCumulative}

abbrev finding : String → ℕ → Finding
finding severity seconds = record {
  severity = severity;
  category = "dependency";
  ecosystem = "npm";
  tool = "";
  created_at = nanos seconds;
}

abbrev findings : List Finding
findings = finding "high" 100 ∷ finding "low" 0 ∷ finding "high" 5000 ∷ []

abbrev dims : Dimensions
dims = record { ecosystem = true; tool = true; severity = false }

abbrev fixed : ResolvedFinding
fixed = record {
  id = "1";
  category = "secret";
  severity = "";
  state = "fixed";
  resolution = "fixed";
  created_at = nanos 10;
  resolved_at = nanos 20;
}

abbrev repo : RepoMetrics
repo = record {
  name = "api";
  open_review_items = 2;
  findings = findings;
  posture = none;
  workflow_runs = [];
  resolved_findings = fixed ∷ [];
}

state_counts_lem_example :
    (get 0 (state_key "secret" "fixed") (state_counts repo)
      ≡ count (λ (f : Finding). f.category == "secret" && state_open == "fixed") findings
        + count
            (λ (rf : ResolvedFinding). rf.category == "secret" && rf.state == "fixed")
            (fixed ∷ []))
    × (cut nul (state_key "secret" "fixed") ≡ ("secret", "fixed"))
state_counts_lem_example =
    state_counts_lem repo "secret" "fixed" (dependency, (dependency, (dependency, tt))) (secret, tt)
      secret
  where
    dependency : Lacks nul "dependency"
    dependency = (refl, (refl, (refl, (refl, (refl, (refl, (refl, (refl, (refl, (refl, tt))))))))))

    secret : Lacks nul "secret"
    secret = (refl, (refl, (refl, (refl, (refl, (refl, tt))))))

open_ages_lem_example :
    let acc = get empty_acc "dependency" (open_ages (nanos 8000) findings []) in
    let aged = ages (nanos 8000) "dependency" findings in
    (get 0 3600 acc.buckets ≡ count (λ a. within a 3600) aged)
    × (acc.inf_count ≡ length aged)
    × (acc.count ≡ length aged)
    × (acc.sum ≡ total_age aged)
open_ages_lem_example = open_ages_lem (nanos 8000) "dependency" findings 3600 refl

observe_series-Rises_example :
    let series =
      series_of memory api_secrets (memory.hgetall (hist_key "s") (run memory events no_tables)) in
    Rises (bucket_values (observe_series series)) series.count
observe_series-Rises_example =
    observe_series-Rises memory memory-IsRedis events no_tables api_secrets "s" empty-IsCumulative
