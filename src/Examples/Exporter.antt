-- ===== src/Examples/Exporter.antt =====
-- Examples about cmd/exporter/main.go: a run in run-once mode whose store answers no call.
use scm_metrics_exporter.Prelude.{
  ℕ, suc, ◌≡◌, refl, true, ◌&&◌, none, [], ◌∷◌, ◌++◌, not, ◌==◌, string_eq,
}
use scm_metrics_exporter.Prelude.Int.{pos}
use scm_metrics_exporter.Prelude.Errors.{ok, err, message, join_errors}
use scm_metrics_exporter.Prelude.Text.{plain}
use scm_metrics_exporter.Provider.{Snapshot}
use scm_metrics_exporter.Collector.{Source, fetch}
use scm_metrics_exporter.Collector.Polling.{all_hard, reports}
use scm_metrics_exporter.Lifecycle.{RecordStore}
use scm_metrics_exporter.Exporter.{
  Outside, Outcome, open_remediation_store, build_provider, entry_of, run_exporter,
}
use scm_metrics_exporter.Exporter.Once.{
  lifecycle_errors, failure_errors, recorded, run_exporter_lem,
}
use scm_metrics_exporter.Examples.Config.{job_environment, job_config, job_loads}

-- A snapshot with one fixed finding, and a failed source.
abbrev fixed_snapshot : Snapshot
fixed_snapshot = record {
  repos =
      record {
        name = "acme/web";
        open_review_items = 0;
        findings = [];
        posture = none;
        workflow_runs = [];
        resolved_findings =
            record {
              id = "7";
              category = "code";
              severity = "high";
              state = "fixed";
              resolution = "fixed";
              created_at = pos 1_000_000_000;
              resolved_at = pos 3_000_000_000;
            }
            ∷ [];
      }
      ∷ [];
  rate_limits = [];
  source_errors = record { source = "rest" } ∷ [];
}

abbrev acme_source : Source ℕ
acme_source = record {
  name = "github";
  snapshot = λ target n. (ok fixed_snapshot, suc n);
  snapshot_repo = none;
}

-- A store that counts the calls and answers none.
abbrev down_store : RecordStore
down_store = record {
  State = ℕ;
  record_if_new = λ scope id duration window n. (err (message "down"), suc n);
}

abbrev around : Outside ℕ
around = record {
  new_github = λ o. ok acme_source;
  new_gitlab = λ o. err (message "no GitLab");
  reachable = λ address password. address == "valkey:6379";
  store = down_store;
  setup = none;
}

acme_built : build_provider around job_config "" ≡ ok acme_source
unfolding build_provider
acme_built = refl

abbrev done : Outcome around
done = run_exporter around ⦃u = plain⦄ job_environment "github" true "" 0 5 0

run_exporter_lem_example :
    let (answer, w') = fetch (entry_of around job_config "" acme_source) 5 in
    let connected = open_remediation_store around.reachable job_config.lifecycle in
    let (failure, s') = recorded down_store job_config "github" connected answer 0 in
    (done.error
      ≡ join_errors (all_hard (record { provider_name = "github"; result = answer } ∷ [])))
    × (done.collector.world ≡ w')
    × (done.collector.scrape_errors
        ≡ lifecycle_errors "github" (true && not connected)
          ++ reports "github" answer
          ++ failure_errors "github" failure)
    × (done.store ≡ s')
run_exporter_lem_example =
    run_exporter_lem ⦃u = plain⦄ around job_environment "github" "" 0 5 0 job_config acme_source
      job_loads acme_built refl
