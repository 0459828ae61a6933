-- ===== src/Examples/Store.antt =====
-- Examples about internal/store and internal/lifecycle, on a server in memory.
use scm_metrics_exporter.Prelude.{
  String, ◌≡◌, refl, true, false, not, ◌&&◌, ◌||◌, none, List, [], ◌∷◌, Any, any, if◌then◌else◌,
  arith,
}
use scm_metrics_exporter.Prelude.Int.{ℤ, pos, ◌+ℤ◌, ◌-ℤ◌, is_zero, sub_time, saturate}
use scm_metrics_exporter.Prelude.Assoc.{lookup}
use scm_metrics_exporter.Prelude.Errors.{ok, err, failed, message}
use scm_metrics_exporter.Provider.{finite, ResolvedFinding, Snapshot, RemediationSeries}
use scm_metrics_exporter.Prelude.Text.Split.{join, join_from}
use scm_metrics_exporter.Provider.Scope.{remediation_scope}
use scm_metrics_exporter.Store.{
  record_if_new, whole_seconds, delivered, refused, lost, retried, nanos, remediation,
}
use scm_metrics_exporter.Store.Fields.{bucket, total}
use scm_metrics_exporter.Store.Counting.{ran, reply, record_if_new_lem, reply_record_if_new}
use scm_metrics_exporter.Store.Script.{gain, stat, counted}
use scm_metrics_exporter.Store.Histogram.{
  Event, call, expiry, run, attempts, IsCumulative, run-IsCumulative, attempts_count_once,
}
use scm_metrics_exporter.Store.ShortWindow.{short_window_counts_again}
use scm_metrics_exporter.Store.Server.{not_positive}
use scm_metrics_exporter.Store.Memory.{memory, memory-IsRedis, no_tables}
use scm_metrics_exporter.Store.Reading.{Shows, record_if_new-remediation, remediation-failed}
use scm_metrics_exporter.Lifecycle.{
  record_snapshot, record_repos, record_repo, record_finding, duration_of, scope_of,
}
use scm_metrics_exporter.Lifecycle.Observations.{observations}
use scm_metrics_exporter.Lifecycle.Settled.{valkey, credit, record_snapshot_settled}
use scm_metrics_exporter.Examples.Provider.{api_secrets, api_secrets-IsClean}

abbrev day : ℤ
day = nanos 86400

window_positive : not_positive (whole_seconds day) ≡ false
unfolding whole_seconds
window_positive = refl

record_if_new_lem_example :
    let after = record_if_new memory "s" "id" (nanos 7200) day delivered no_tables in
    (after.0 ≡ reply "s" delivered (counted memory "s" "id" no_tables))
    × (stat memory "s" (bucket (finite 21600)) after.1 ≡ (
        if (ran delivered && not (counted memory "s" "id" no_tables)) && true
        then stat memory "s" (bucket (finite 21600)) no_tables
          +ℤ gain (nanos 7200) (bucket (finite 21600))
        else stat memory "s" (bucket (finite 21600)) no_tables))
    × (counted memory "s" "id" after.1
        ≡ ((ran delivered && (true && true)) || counted memory "s" "id" no_tables))
record_if_new_lem_example =
    record_if_new_lem memory memory-IsRedis "s" "id" (nanos 7200) day delivered no_tables "s" "id"
      (bucket (finite 21600)) window_positive refl

attempts_count_once_example :
    stat memory "s" total (
      attempts memory "s" "id" (nanos 7200) day (refused ∷ retried lost ∷ delivered ∷ []) no_tables)
    ≡ (if (any ran (refused ∷ retried lost ∷ delivered ∷ [])
            && not (counted memory "s" "id" no_tables))
          && true
        then stat memory "s" total no_tables +ℤ gain (nanos 7200) total
        else stat memory "s" total no_tables)
attempts_count_once_example =
    attempts_count_once memory memory-IsRedis "s" "id" (nanos 7200) day
      (refused ∷ retried lost ∷ delivered ∷ []) no_tables "s" total window_positive tt

pub empty-IsCumulative : IsCumulative memory no_tables "s"
unfolding lookup
empty-IsCumulative = record {
  nested = λ a b h k l. omega arith;
  below = λ a h. omega arith;
  all = refl;
}

abbrev pub events : List Event
events =
    call "s" "a" (nanos 7200) day lost ∷ expiry "s" ∷ call "s" "a" (nanos 7200) day delivered ∷ []

run-IsCumulative_example : IsCumulative memory (run memory events no_tables) "s"
run-IsCumulative_example =
    run-IsCumulative memory memory-IsRedis events no_tables "s" empty-IsCumulative

half_second-short : not_positive (whole_seconds (pos 500_000_000)) ≡ true
unfolding whole_seconds
half_second-short = refl

short_window_counts_again_example :
    (record_if_new memory "s" "id"
      (nanos 7200)
      (pos 500_000_000)
      delivered
      (record_if_new memory "s" "id" (nanos 7200) (pos 500_000_000) delivered no_tables).1).0
    ≡ ok true
short_window_counts_again_example =
    short_window_counts_again memory memory-IsRedis "s" "id" (nanos 7200) (pos 500_000_000)
      no_tables half_second-short

first_call-new :
    (record_if_new memory
      (remediation_scope api_secrets)
      "1"
      (nanos 7200)
      day
      delivered
      no_tables).0
    ≡ ok true
unfolding lookup
first_call-new =
    reply_record_if_new memory memory-IsRedis (remediation_scope api_secrets) "1" (nanos 7200) day
      no_tables

record_if_new-remediation_example :
    let d' =
      (record_if_new memory
        (remediation_scope api_secrets)
        "1"
        (nanos 7200)
        day
        delivered
        no_tables).1 in
    (xs : List RemediationSeries) × (remediation memory (ok d') (λ _. ok d') ≡ ok xs)
    × Any (Shows memory api_secrets d') xs
record_if_new-remediation_example =
    record_if_new-remediation memory memory-IsRedis api_secrets "1" (nanos 7200) day no_tables
      api_secrets-IsClean first_call-new

abbrev resolved : ResolvedFinding
resolved = record {
  id = "ghas-1";
  category = "secret";
  severity = "high";
  state = "resolved";
  resolution = "fixed";
  created_at = nanos 1000;
  resolved_at = nanos 8200;
}

abbrev snap : Snapshot
snap = record {
  repos =
      record {
        name = "api";
        open_review_items = 0;
        findings = [];
        posture = none;
        workflow_runs = [];
        resolved_findings = resolved ∷ resolved ∷ [];
      }
      ∷ [];
  rate_limits = [];
  source_errors = [];
}

-- The scope of the snapshot's finding.
abbrev snap_scope : String
snap_scope = remediation_scope (record api_secrets { severity = "high" })

snap-credit :
    credit
      (λ k y. counted memory k y no_tables)
      snap_scope
      total
      (observations "github" true snap.repos)
    ≡ pos 1
unfolding credit lookup observations duration_of is_zero sub_time ◌-ℤ◌ ◌+ℤ◌ scope_of
    remediation_scope join join_from
snap-credit = refl

first_pass-none : (record_snapshot (valkey memory) "github" day true snap (no_tables, [])).0 ≡ none
unfolding record_snapshot record_repos record_repo record_finding duration_of record_if_new is_zero
    sub_time saturate ◌-ℤ◌
first_pass-none = refl

record_snapshot_settled_example :
    let d' = (record_snapshot (valkey memory) "github" day true snap (no_tables, [])).1.0 in
    stat memory "s" total
      (record_snapshot (valkey memory) "github" day true snap (d', lost ∷ [])).1.0
    ≡ stat memory "s" total d'
record_snapshot_settled_example =
    record_snapshot_settled memory memory-IsRedis day window_positive "github" true snap no_tables
      [] (lost ∷ []) first_pass-none "s" total tt

remediation-failed_example :
    failed (remediation memory (err (message "down")) (λ hk. ok no_tables)) ≡ true
remediation-failed_example = remediation-failed memory (err (message "down")) (λ hk. ok no_tables)
