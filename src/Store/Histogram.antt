-- ===== src/Store/Histogram.antt =====
-- The remediation histograms of internal/store over any sequence of calls and expiries: they stay
-- cumulative, and retries of a call count once.
use scm_metrics_exporter.Prelude.{
  ℕ, ◌≤◌, String, ◌≡◌, refl, ap, ◌∙◌, Bool, true, false, not, ◌||◌, ◌&&◌, List, [], ◌∷◌, contains,
  any, if◌then◌else◌, ◌==◌, string_eq, nat_eq, arith, beq_refl,
}
use scm_metrics_exporter.Prelude.Int.{ℤ, pos, ◌+ℤ◌, ◌≤ℤ◌, int_laws}
use scm_metrics_exporter.Prelude.Assoc.{get}
use scm_metrics_exporter.Provider.{finite, inf, remediation_bucket_bounds}
use scm_metrics_exporter.Store.{
  delivered, refused, lost, retried, record_if_new, Link, counted_key, hist_key, whole_seconds,
}
use scm_metrics_exporter.Store.Fields.{Stat, bucket, total, field, IsStat, hits}
use scm_metrics_exporter.Store.Counting.{ran, stat_record_if_new, counted_record_if_new}
use scm_metrics_exporter.Store.Script.{script, stat-script, gain, stat, counted}
use scm_metrics_exporter.Store.Server.{Redis, IsRedis, not_positive}

-- What happens to the server: a call of `RecordIfNew`, or the end of a dedup set's time to live.
pub data Event : Type 0 where
  call : (scope id : String) → (duration window : ℤ) → Link → Event
  expiry : (scope : String) → Event

abbrev pub IsBound : ℕ → Type 0
IsBound le = contains remediation_bucket_bounds le ≡ true

module _ (r : Redis) where
  open r use {Db, lapse}

  unfoldable pub step : Event → Db → Db
  step (call scope id duration window link) d = (record_if_new r scope id duration window link d).1
  step (expiry scope) d = lapse (counted_key scope) d

  unfoldable pub run : List Event → Db → Db
  run [] d = d
  run (e ∷ es) d = run es (step e d)

  -- The histogram of a scope is cumulative: a bucket holds what every smaller one holds, and the
  -- overflow bucket holds every finding that was counted.
  pub record IsCumulative (d : Db) (scope : String) : Type 0 where
    pub nested :
        (a b : ℕ)
        → IsBound a
        → IsBound b
        → a ≤ b
        → stat r scope (bucket (finite a)) d ≤ℤ stat r scope (bucket (finite b)) d
    pub below :
        (a : ℕ) → IsBound a → stat r scope (bucket (finite a)) d ≤ℤ stat r scope (bucket inf) d
    pub all : stat r scope (bucket inf) d ≡ stat r scope total d

  -- The same call made again, as a caller does that got no reply.
  unfoldable pub attempts : String → String → ℤ → ℤ → List Link → Db → Db
  attempts scope id duration window [] d = d
  attempts scope id duration window (link ∷ links) d =
      attempts scope id duration window links (record_if_new r scope id duration window link d).1

  module _ (l : IsRedis r) where
    hits_mono :
        (duration : ℤ) (a b : ℕ)
        → a ≤ b
        → hits duration (bucket (finite a)) ≤ hits duration (bucket (finite b))
    hits_mono duration a b h = ground arith

    hits-le-one : (duration : ℤ) (a : ℕ) → hits duration (bucket (finite a)) ≤ 1
    hits-le-one duration a = ground arith

    +ℤ_mono :
        (b : Bool) (x y : ℤ) (m n : ℕ)
        → x ≤ℤ y
        → m ≤ n
        → (if b then x +ℤ pos m else x) ≤ℤ (if b then y +ℤ pos n else y)
    +ℤ_mono true x y m n h k = omega int_laws
    +ℤ_mono false x y m n h k = h

    script-IsCumulative :
        (scope id : String) (duration ttl : ℤ) (d : Db) (j : String)
        → IsCumulative d j
        → IsCumulative (script r l scope id duration ttl d).1 j
    script-IsCumulative scope id duration ttl d j c =
        let now = λ (s : Stat) (k : IsStat s). stat-script r l scope id j duration ttl s d k in
        let b = not (counted r scope id d) && scope == j in
        record {
          nested = λ x y p q h.
              rw (now (bucket (finite x)) p, now (bucket (finite y)) q)
                (+ℤ_mono b _ _ _ _ (c.nested x y p q h) (hits_mono duration x y h));
          below = λ x p.
              rw (now (bucket (finite x)) p, now (bucket inf) tt)
                (+ℤ_mono b _ _ _ _ (c.below x p) (hits-le-one duration x));
          all = rw (now (bucket inf) tt, now total tt) (rw c.all refl);
        }

    call-IsCumulative :
        (scope id : String) (duration window : ℤ) (link : Link) (d : Db) (j : String)
        → IsCumulative d j
        → IsCumulative (record_if_new r scope id duration window link d).1 j
    unfolding record_if_new
    call-IsCumulative scope id duration window refused d j c = c
    call-IsCumulative scope id duration window delivered d j c =
        script-IsCumulative scope id duration (whole_seconds window) d j c
    call-IsCumulative scope id duration window lost d j c =
        script-IsCumulative scope id duration (whole_seconds window) d j c
    call-IsCumulative scope id duration window (retried link) d j c =
        call-IsCumulative scope id duration window link _ j
          (script-IsCumulative scope id duration (whole_seconds window) d j c)

    step-IsCumulative :
        (e : Event) (d : Db) (j : String) → IsCumulative d j → IsCumulative (step e d) j
    unfolding step
    step-IsCumulative (call scope id duration window link) d j c =
        call-IsCumulative scope id duration window link d j c
    step-IsCumulative (expiry scope) d j c =
        let same = λ (f : String).
          ap (λ m. get (pos 0) f m) (l.hash_lapse (counted_key scope) (hist_key j) d) in
        record {
          nested = λ x y p q h.
              rw (same (field (bucket (finite x))), same (field (bucket (finite y))))
                (c.nested x y p q h);
          below =
              λ x p. rw (same (field (bucket (finite x))), same (field (bucket inf))) (c.below x p);
          all = rw (same (field (bucket inf)), same (field total)) c.all;
        }

    -- Whatever calls are made, with any durations and windows, whether they reach the server or
    -- not or run again, and whenever dedup sets expire: a histogram that is cumulative stays cumulative.
    pub run-IsCumulative :
        (es : List Event) (d : Db) (scope : String)
        → IsCumulative d scope
        → IsCumulative (run es d) scope
    unfolding run
    run-IsCumulative [] d scope c = c
    run-IsCumulative (e ∷ es) d scope c =
        run-IsCumulative es (step e d) scope (step-IsCumulative e d scope c)

    -- A finding is counted once however often its call is made again, as long as its dedup set does
    -- not expire: a statistic grows by one call's share if some attempt ran at the server and the
    -- finding was not counted before, and stays as it is otherwise.
    pub attempts_count_once :
        (scope id : String) (duration window : ℤ) (links : List Link) (d : Db) (j : String)
        (s : Stat)
        → not_positive (whole_seconds window) ≡ false
        → IsStat s
        → stat r j s (attempts scope id duration window links d) ≡ (
            if (any ran links && not (counted r scope id d)) && scope == j
            then stat r j s d +ℤ gain duration s
            else stat r j s d)
    unfolding attempts
    attempts_count_once scope id duration window [] d j s h k = refl
    attempts_count_once scope id duration window (link ∷ links) d j s h k =
        attempts_count_once scope id duration window links _ j s h k
        ∙ rw (stat_record_if_new r l scope id duration window link d j s h k) (
            rw (counted_record_if_new r l scope id duration window link d scope id h) (
              rw (beq_refl scope, beq_refl id)
                (split_attempt (ran link) (any ran links) (counted r scope id d) (scope == j) _ _)))
      where
        split_attempt :
            (a b c e : Bool) (x g : ℤ)
            → (if (b && not ((a && true) || c)) && e
                then (if (a && not c) && e then x +ℤ g else x) +ℤ g
                else if (a && not c) && e
                then x +ℤ g
                else x)
              ≡ (if ((a || b) && not c) && e then x +ℤ g else x)
        split_attempt a b c e x g = ground arith
