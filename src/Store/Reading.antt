-- ===== src/Store/Reading.antt =====
-- What `Remediation` (internal/store/valkey.go) reads.
use Prim.Native.String
use text.Mathlib.TextLemmas.{cons-append, nil-append}
use scm_metrics_exporter.Prelude.{
  map, String, ◌≡◌, refl, ap, ◌∙◌, true, false, ◌||◌, List, [], ◌∷◌, ◌++◌, Any, Any-append_left,
  Any-append_right, contains, any, is_empty, if◌then◌else◌, ◌==◌, string_eq, arith, inl, inr,
  Bool-cases, eq_of_beq,
}
use scm_metrics_exporter.Prelude.Int.{ℤ}
use scm_metrics_exporter.Prelude.Errors.{Result, ok, err, ◌>>=◌, failed, wrap}
use scm_metrics_exporter.Prelude.Order.{leb_text}
use scm_metrics_exporter.Prelude.Sort.{sort}
use scm_metrics_exporter.Prelude.Keys.{contains-sort}
use scm_metrics_exporter.Provider.{RemediationSeries, finite, inf, remediation_bucket_bounds}
use scm_metrics_exporter.Store.Fields.{Stat, bucket, sum, total}
use scm_metrics_exporter.Store.Script.{stat}
use scm_metrics_exporter.Provider.Scope.{Scope, remediation_scope, IsClean, scope_round_trip}
use scm_metrics_exporter.Store.{
  hist_key, hist_index_key, drop, series_of, series_at, read_series, remediation, record_if_new,
  delivered,
}
use scm_metrics_exporter.Store.Counting.{listed_after}
use scm_metrics_exporter.Store.Server.{Redis, IsRedis, hash_exists}

drop-hist_key : (scope : String) → drop 5 (hist_key scope) ≡ scope
unfolding hist_key
drop-hist_key scope =
    ap (drop 5) (cons-append "h" "ist:" scope)
    ∙ ap (drop 4) (cons-append "i" "st:" scope)
    ∙ ap (drop 3) (cons-append "s" "t:" scope)
    ∙ ap (drop 2) (cons-append "t" ":" scope)
    ∙ ap (drop 1) (cons-append ":" "" scope)
    ∙ nil-append scope

module _ (r : Redis) where
  open r use {Db, hgetall, smembers}

  -- All the series of a database that does not change while it is read.
  all_series : Db → List String → List RemediationSeries
  all_series d [] = []
  all_series d (hk ∷ keys) = series_at r hk d ++ all_series d keys

  read_series-eq :
      (d : Db) (keys : List String) → read_series r (λ _. ok d) keys ≡ ok (all_series d keys)
  unfolding read_series all_series
  read_series-eq d [] = refl
  read_series-eq d (hk ∷ keys) = rw (read_series-eq d keys)

  Any-all_series :
      (P : RemediationSeries → Type 0) (d : Db) (hk : String) (keys : List String)
      → contains keys hk ≡ true
      → Any P (series_at r hk d)
      → Any P (all_series d keys)
  unfolding all_series
  Any-all_series P d hk [] h a = cc
  Any-all_series P d hk (k ∷ keys) h a = elim (Bool-cases (k == hk)) [
    | inl e ↦ Any-append_left P (series_at r k d) (all_series d keys) (rw (eq_of_beq k hk e) a)
    | inr n ↦
        Any-append_right P (series_at r k d) (all_series d keys)
          (Any-all_series P d hk keys (ground arith) a)
  ]

  -- A series with the labels of a scope and the statistics of the scope's histogram: one bucket for
  -- each finite bound and the overflow bucket, the sum and the count.
  abbrev pub Shows : Scope → Db → RemediationSeries → Type 0
  Shows s d x =
      let held = λ (statistic : Stat). stat r (remediation_scope s) statistic d in
      (x.provider ≡ s.provider_name)
      × (x.repo ≡ s.repo)
      × (x.category ≡ s.category)
      × (x.resolution ≡ s.resolution)
      × (x.severity ≡ s.severity)
      × (x.buckets
          ≡ map (λ b. record { le = b; count = held (bucket b) })
              (map finite remediation_bucket_bounds ++ inf ∷ []))
      × (x.sum ≡ held sum)
      × (x.count ≡ held total)

  -- The labels and the hash of a clean scope are read.
  series_at-scope :
      (s : Scope) (d : Db)
      → IsClean s
      → hash_exists r (hist_key (remediation_scope s)) d ≡ true
      → Any (Shows s d) (series_at r (hist_key (remediation_scope s)) d)
  unfolding series_at series_of
  series_at-scope s d c e = rw (full (hgetall (hist_key (remediation_scope s)) d) e) (
      rw (drop-hist_key (remediation_scope s))
        (rw (scope_round_trip s c) (inl (refl, refl, refl, refl, refl, refl, refl, refl))))
    where
      full :
          {A : Type 0}
          → (m : List A) → (if is_empty m then false else true) ≡ true
          → is_empty m ≡ false
      full m h = ground arith

  failed-read_series :
      (at : String → Result Db) (keys : List String)
      → failed (read_series r at keys) ≡ any (λ hk. failed (at hk)) keys
  unfolding read_series
  failed-read_series at [] = refl
  failed-read_series at (hk ∷ keys) =
      elim (at hk)
        as (λ x.
          failed (elim x [
            | err e ↦ err (wrap (String.◌++◌ "store: HGETALL " hk) e)
            | ok d ↦ (do later ← read_series r at keys; ok (series_at r hk d ++ later))
          ])
          ≡ (failed x || any (λ k. failed (at k)) keys)) [
            | err e ↦ refl
            | ok d ↦
                failed-then (series_at r hk d) (read_series r at keys) ∙ failed-read_series at keys
          ]
    where
      failed-then :
          (xs : List RemediationSeries) (res : Result (List RemediationSeries))
          → failed (do later ← res; ok (xs ++ later)) ≡ failed res
      failed-then xs (ok _) = refl
      failed-then xs (err _) = refl

  -- A read of the histograms fails as a whole exactly if the index cannot be read or some key that
  -- the index lists cannot be read: no partial list is returned.
  pub remediation-failed :
      (index : Result Db) (at : String → Result Db)
      → failed (remediation r index at) ≡ (elim index [
        | err _ ↦ true
        | ok d ↦ any (λ hk. failed (at hk)) (sort leb_text (smembers hist_index_key d))
      ])
  unfolding remediation
  remediation-failed (err e) at = refl
  remediation-failed (ok d) at = failed-read_series at (sort leb_text (smembers hist_index_key d))

module _ (r : Redis) (l : IsRedis r) where
  open r use {Db, hgetall, smembers}

  -- After a call that counts a new finding of a scope whose labels hold no separator, a read of the
  -- histograms that is not disturbed succeeds and lists a series with each label of the scope in its
  -- own place, and with the statistics of the scope's histogram after the call: a bucket for each
  -- bound, the overflow bucket, the sum and the count.
  pub record_if_new-remediation :
      (s : Scope) (id : String) (duration window : ℤ) (d : Db)
      → IsClean s
      → (record_if_new r (remediation_scope s) id duration window delivered d).0 ≡ ok true
      → let d' = (record_if_new r (remediation_scope s) id duration window delivered d).1 in
        (xs : List RemediationSeries) × (remediation r (ok d') (λ _. ok d') ≡ ok xs)
        × Any (Shows r s d') xs
  unfolding remediation
  record_if_new-remediation s id duration window d c h =
      let d' = (record_if_new r (remediation_scope s) id duration window delivered d).1 in
      let found = listed_after r l (remediation_scope s) id duration window d h in
      let hk = hist_key (remediation_scope s) in
      let listed = sort leb_text (smembers hist_index_key d') in
      (
        all_series r d' listed,
        read_series-eq r d' listed,
        Any-all_series r _ d' hk listed (contains-sort hk (smembers hist_index_key d') ∙ found.0)
            (series_at-scope r s d' c found.1),
      )
