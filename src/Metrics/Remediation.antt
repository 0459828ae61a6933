-- ===== src/Metrics/Remediation.antt =====
-- The remediation counters of internal/metrics/metrics.go, at the series of internal/store/valkey.go.
use scm_metrics_exporter.Prelude.{
  ℕ, ◌≤◌, String, ◌≡◌, refl, Bool, true, false, List, [], ◌∷◌, map, filter, string_eq, arith,
}
use scm_metrics_exporter.Prelude.Int.{ℤ, ◌≤ℤ◌}
use scm_metrics_exporter.Provider.Scope.{Scope}
use scm_metrics_exporter.Store.{series_of, hist_key}
use scm_metrics_exporter.Store.Server.{Redis, IsRedis}
use scm_metrics_exporter.Store.Histogram.{Event, run, IsBound, IsCumulative, run-IsCumulative}
use scm_metrics_exporter.Metrics.{Observation, remediation_bucket, observe_series}

abbrev pub is_bucket : Observation → Bool
is_bucket o = elim o.instrument [ remediation_bucket ↦ true | _ ↦ false ]

abbrev pub bucket_values : List Observation → List ℤ
bucket_values os = map (λ (o : Observation). o.value) (filter is_bucket os)

-- Every value is at most the next one, and the last one is the total.
abbrev pub Rises : List ℤ → ℤ → Type 0
Rises [] total = ⊥
Rises (x ∷ []) total = x ≡ total
Rises (x ∷ (y ∷ ys)) total = (x ≤ℤ y) × Rises (y ∷ ys) total

-- Whatever calls and expiries happen from a database in which a scope's histogram is cumulative,
-- the bucket counters that are observed for the scope's series rise from bound to bound, and the
-- overflow bucket is the observed count, as a Prometheus histogram needs.
pub observe_series-Rises :
    (r : Redis) (l : IsRedis r) (es : List Event) (d : r.Db) (s : Scope) (scope : String)
    → IsCumulative r d scope
    → let series = series_of r s (r.hgetall (hist_key scope) (run r es d)) in
      Rises (bucket_values (observe_series series)) series.count
unfolding observe_series series_of
observe_series-Rises r l es d s scope h =
    let c = run-IsCumulative r l es d scope h in
    let next = λ (a b : ℕ) (p : IsBound a) (q : IsBound b) (le : a ≤ b). c.nested a b p q le in
    (
      next 3600 21600 refl refl (omega arith),
      (
        next 21600 86400 refl refl (omega arith),
        (
          next 86400 259200 refl refl (omega arith),
          (
            next 259200 604800 refl refl (omega arith),
            (
              next 604800 1209600 refl refl (omega arith),
              (
                next 1209600 2592000 refl refl (omega arith),
                (next 2592000 7776000 refl refl (omega arith), (c.below 7776000 refl, c.all)),
              ),
            ),
          ),
        ),
      ),
    )
