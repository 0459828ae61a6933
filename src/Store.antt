-- ===== src/Store.antt =====
-- internal/store: the remediation histograms in Valkey. A call is one Lua script, which the server
-- runs as a whole; `Link` is what the connection does with it.
pub mod Server
pub mod Fields
pub mod Script
pub mod Counting
pub mod Histogram
pub mod Reading
pub mod ShortWindow
pub mod Memory
use Prim.Native.String
use scm_metrics_exporter.Prelude.{
  ℕ, zero, ◌*◌, ◌/◌, ◌-◌, ◌+◌, suc, String, Bool, true, false, List, [], ◌∷◌, ◌++◌, map, filter,
  if◌then◌else◌, ◌==◌, nat_eq, string_eq, is_empty, Option, none, some,
}
use scm_metrics_exporter.Prelude.Int.{ℤ, pos, negsuc, leb_ℤ, pos_part}
use scm_metrics_exporter.Prelude.Assoc.{Map, get}
use scm_metrics_exporter.Prelude.Errors.{Error, message, wrap, Result, ok, err, ◌>>=◌}
use scm_metrics_exporter.Prelude.Text.Decimal.{format_nat}
use scm_metrics_exporter.Prelude.Order.{leb_text}
use scm_metrics_exporter.Prelude.Sort.{sort}
use scm_metrics_exporter.Provider.{
  Bound, finite, inf, remediation_bucket_bounds, RemediationBucket, RemediationSeries,
}
use scm_metrics_exporter.Provider.Scope.{Scope, parse_remediation_scope}
use scm_metrics_exporter.Store.Server.{Redis}

unfoldable pub counted_key : String → String
counted_key scope = String.◌++◌ "counted:" scope

-- `hk[n:]`, at a key that begins with n ASCII bytes.
abbrev pub drop : ℕ → String → String
drop zero s = s
drop (suc n) String.[] = ""
drop (suc n) (String.◌∷◌ c s) = drop n s

unfoldable pub hist_key : String → String
hist_key scope = String.◌++◌ "hist:" scope

abbrev pub hist_index_key : String
hist_index_key = "histkeys"

-- The hash field of a bucket.
unfoldable pub bucket_field : Bound → String
bucket_field inf = "le:+Inf"
bucket_field (finite le) = String.◌++◌ "le:" (format_nat le)

abbrev pub nanos : ℕ → ℤ
nanos seconds = pos (seconds * 1_000_000_000)

-- `int(window.Seconds())`
unfoldable pub whole_seconds : ℤ → ℤ
whole_seconds (pos n) = pos (n / 1_000_000_000)
whole_seconds (negsuc n) = let s = suc n / 1_000_000_000 in if s == 0 then pos 0 else negsuc (s - 1)

-- `secs <= le`, in nanoseconds.
abbrev pub within : ℤ → ℕ → Bool
within duration le = leb_ℤ duration (nanos le)

-- The bucket fields that a duration is counted in.
unfoldable pub selected_fields : ℤ → List String
selected_fields duration =
    map (λ le. bucket_field (finite le)) (filter (within duration) remediation_bucket_bounds)
    ++ bucket_field inf ∷ []

-- What the connection does with a script: it runs and its reply arrives, or it never reaches the
-- server, or it runs and the reply is lost. After a run whose reply was lost the client of go-redis
-- may make the call again: the new try has a fate of its own.
pub data Link : Type 0 where
  delivered refused lost : Link
  retried : Link → Link

module _ (r : Redis) where
  open r use {Db, sadd, expire, hincrby, smembers, hgetall}

  unfoldable pub bump_fields : String → List String → Db → Db
  bump_fields hist [] d = d
  bump_fields hist (f ∷ fs) d = bump_fields hist fs (hincrby hist f (pos 1) d)

  -- The part of the script that follows its early return.
  unfoldable pub count_finding : String → String → ℤ → List String → Db → Db
  count_finding hist index duration fields d =
      let d = bump_fields hist fields d in
      let d = hincrby hist "sum" duration d in
      let d = hincrby hist "count" (pos 1) d in (sadd index hist d).1

  unfoldable pub record_script :
      String → String → String → String → ℤ → ℤ → List String → Db → ℕ × Db
  record_script counted hist index id ttl duration fields d =
      let (added, d) = sadd counted id d in
      let d = expire counted ttl d in
      if added then (1, count_finding hist index duration fields d) else (0, d)

  unfoldable pub run_script : String → String → ℤ → ℤ → Db → ℕ × Db
  run_script scope id duration window d =
      record_script (counted_key scope) (hist_key scope) hist_index_key id (whole_seconds window)
        duration (selected_fields duration) d

  abbrev run_error : String → Result Bool
  run_error scope = err (wrap (String.◌++◌ "store: record " scope) (message "run"))

  unfoldable pub record_if_new : String → String → ℤ → ℤ → Link → Db → Result Bool × Db
  unfolding run_script
  record_if_new scope id duration window delivered d =
      let (res, d') = run_script scope id duration window d in (ok (res == 1), d')
  record_if_new scope id duration window refused d = (run_error scope, d)
  record_if_new scope id duration window lost d =
      (run_error scope, (run_script scope id duration window d).1)
  record_if_new scope id duration window (retried link) d =
      record_if_new scope id duration window link (run_script scope id duration window d).1

  -- A read of the server fails, or sees the database as it is at that moment.
  unfoldable pub series_of : Scope → Map String ℤ → RemediationSeries
  series_of s fields = record {
    provider = s.provider_name;
    repo = s.repo;
    category = s.category;
    resolution = s.resolution;
    severity = s.severity;
    buckets =
        map (λ le. record { le = finite le; count = get (pos 0) (bucket_field (finite le)) fields })
          remediation_bucket_bounds
        ++ record { le = inf; count = get (pos 0) (bucket_field inf) fields } ∷ [];
    sum = get (pos 0) "sum" fields;
    count = get (pos 0) "count" fields;
  }

  -- One round of the loop over the keys: nothing for an empty hash or a key that is no scope.
  unfoldable pub series_at : String → Db → List RemediationSeries
  series_at hk d =
      let fields = hgetall hk d in
      let series : List RemediationSeries = elim (parse_remediation_scope (drop 5 hk)) [
        | none ↦ []
        | some s ↦ series_of s fields ∷ []
      ] in
      if is_empty fields then [] else series

  unfoldable pub read_series : (String → Result Db) → List String → Result (List RemediationSeries)
  read_series at [] = ok []
  read_series at (hk ∷ keys) =
      let rest = read_series at keys in
      elim (at hk) [
        | err e ↦ err (wrap (String.◌++◌ "store: HGETALL " hk) e)
        | ok d ↦ (do later ← rest; ok (series_at hk d ++ later))
      ]

  unfoldable pub remediation : Result Db → (String → Result Db) → Result (List RemediationSeries)
  remediation index at = elim index [
    | err e ↦ err (wrap "store: SMEMBERS histkeys" e)
    | ok d ↦ read_series at (sort leb_text (smembers hist_index_key d))
  ]
