-- ===== src/Store/Counting.antt =====
-- What one call of `RecordIfNew` (internal/store/valkey.go) does to the server.
use Prim.Native.String
use scm_metrics_exporter.Prelude.{
  String, ◌≡◌, refl, sym, ap, ◌∙◌, Bool, true, false, not, ◌||◌, ◌&&◌, if◌then◌else◌, ◌==◌, nat_eq,
  string_eq, arith, inl, inr, Bool-cases, beq_refl,
}
use scm_metrics_exporter.Prelude.Int.{ℤ, ◌+ℤ◌}
use scm_metrics_exporter.Prelude.Errors.{Result, ok, err, wrap, message}
use scm_metrics_exporter.Store.{
  counted_key, hist_key, hist_index_key, selected_fields, record_if_new, whole_seconds, Link,
  delivered, refused, lost, retried,
}
use scm_metrics_exporter.Store.Fields.{Stat, IsStat}
use scm_metrics_exporter.Store.Server.{Redis, IsRedis, is_member, hash_exists, not_positive}
use scm_metrics_exporter.Store.Script.{
  gain, stat, counted, index-ne-counted, member-count_finding, exists_count_finding, marked, script,
  script, script-eq, stat-script, counted-script, reply-script,
}

-- What a call returns, for a finding that was counted before or not.
abbrev pub reply : String → Link → Bool → Result Bool
reply scope delivered seen = ok (not seen)
reply scope refused seen = err (wrap (String.◌++◌ "store: record " scope) (message "run"))
reply scope lost seen = err (wrap (String.◌++◌ "store: record " scope) (message "run"))
reply scope (retried link) seen = reply scope link true

-- Whether the script ran.
abbrev pub ran : Link → Bool
ran refused = false
ran delivered = true
ran lost = true
ran (retried link) = true

module _ (r : Redis) (l : IsRedis r) where
  open r use {Db, sadd, expire, hincrby, smembers, hgetall, lapse}

  -- A script that runs leaves its finding counted.
  counted_self :
      (scope id : String) (duration window : ℤ) (d : Db)
      → not_positive (whole_seconds window) ≡ false
      → counted r scope id (script r l scope id duration (whole_seconds window) d).1 ≡ true
  counted_self scope id duration window d h =
      counted-script r l scope id scope id duration (whole_seconds window) d h
      ∙ rw (beq_refl scope, beq_refl id) refl

  pub stat_record_if_new :
      (scope id : String) (duration window : ℤ) (link : Link) (d : Db) (j : String) (s : Stat)
      → not_positive (whole_seconds window) ≡ false
      → IsStat s
      → stat r j s (record_if_new r scope id duration window link d).1 ≡ (
          if (ran link && not (counted r scope id d)) && scope == j
          then stat r j s d +ℤ gain duration s
          else stat r j s d)
  unfolding record_if_new
  stat_record_if_new scope id duration window refused d j s h k = refl
  stat_record_if_new scope id duration window delivered d j s h k =
      stat-script r l scope id j duration (whole_seconds window) s d k
  stat_record_if_new scope id duration window lost d j s h k =
      stat-script r l scope id j duration (whole_seconds window) s d k
  stat_record_if_new scope id duration window (retried link) d j s h k =
      stat_record_if_new scope id duration window link _ j s h k
      ∙ rw (counted_self scope id duration window d h) (no_gain (ran link) (scope == j) _ _)
      ∙ stat-script r l scope id j duration (whole_seconds window) s d k
    where
      no_gain : (b e : Bool) (x y : ℤ) → (if (b && false) && e then x else y) ≡ y
      no_gain true e x y = refl
      no_gain false e x y = refl

  pub counted_record_if_new :
      (scope id : String) (duration window : ℤ) (link : Link) (d : Db) (j y : String)
      → not_positive (whole_seconds window) ≡ false
      → counted r j y (record_if_new r scope id duration window link d).1
        ≡ ((ran link && (scope == j && id == y)) || counted r j y d)
  unfolding record_if_new
  counted_record_if_new scope id duration window refused d j y h = refl
  counted_record_if_new scope id duration window delivered d j y h =
      counted-script r l scope id j y duration (whole_seconds window) d h
  counted_record_if_new scope id duration window lost d j y h =
      counted-script r l scope id j y duration (whole_seconds window) d h
  counted_record_if_new scope id duration window (retried link) d j y h =
      counted_record_if_new scope id duration window link _ j y h
      ∙ rw (counted-script r l scope id j y duration (whole_seconds window) d h)
          (absorbed (ran link) (scope == j && id == y) (counted r j y d))
    where
      absorbed : (a b c : Bool) → ((a && b) || (b || c)) ≡ (b || c)
      absorbed a true c = or_true (a && true)
        where
          or_true : (x : Bool) → (x || true) ≡ true
          or_true true = refl
          or_true false = refl
      absorbed true false c = refl
      absorbed false false c = refl

  -- After a call whose time to live is not positive the dedup set does not hold the finding.
  pub counted_after :
      (scope id : String) (duration window : ℤ) (d : Db)
      → not_positive (whole_seconds window) ≡ true
      → counted r scope id (record_if_new r scope id duration window delivered d).1 ≡ false
  unfolding record_if_new
  counted_after scope id duration window d h = elim (Bool-cases (counted r scope id d)) [
    | inl old ↦ rw (script-eq r l scope id duration (whole_seconds window) d) (rw old gone)
    | inr new ↦ rw (script-eq r l scope id duration (whole_seconds window) d) (
        rw new (
          member-count_finding r l (hist_key scope) hist_index_key (counted_key scope) id duration
            (selected_fields duration) (marked r l scope id (whole_seconds window) d)
          ∙ rw (index-ne-counted scope) gone))
  ]
    where
      gone :
          is_member r (counted_key scope) id (marked r l scope id (whole_seconds window) d) ≡ false
      gone =
          l.member_expire (counted_key scope) (whole_seconds window) (counted_key scope) id
            (sadd (counted_key scope) id d).1
          ∙ rw (beq_refl (counted_key scope), h) refl

  pub reply_record_if_new :
      (scope id : String) (duration window : ℤ) (d : Db)
      → (record_if_new r scope id duration window delivered d).0 ≡ ok (not (counted r scope id d))
  unfolding record_if_new
  reply_record_if_new scope id duration window d =
      ap ok (reply-script r l scope id duration (whole_seconds window) d)

  -- A call that reports a new finding leaves its scope's key in the index and the hash in place.
  pub listed_after :
      (scope id : String) (duration window : ℤ) (d : Db)
      → (record_if_new r scope id duration window delivered d).0 ≡ ok true
      → (is_member r hist_index_key
            (hist_key scope)
            (record_if_new r scope id duration window delivered d).1
          ≡ true)
        × (hash_exists r (hist_key scope) (record_if_new r scope id duration window delivered d).1
            ≡ true)
  listed_after scope id duration window d h = elim (Bool-cases (counted r scope id d)) [
    | inl old ↦ absurd (
        ok_not (counted r scope id d) old
          (sym (reply_record_if_new scope id duration window d) ∙ h))
    | inr new ↦
        unfold record_if_new in
        rw (script-eq r l scope id duration (whole_seconds window) d) (
          rw new (
            member-count_finding r l (hist_key scope) hist_index_key hist_index_key (hist_key scope)
                  duration (selected_fields duration) (marked r l scope id (whole_seconds window) d)
                ∙ rw (beq_refl (hist_key scope)) refl,
            exists_count_finding r l (hist_key scope) hist_index_key duration
                (selected_fields duration) (marked r l scope id (whole_seconds window) d),
          ))
  ]
    where
      ok_not : (b : Bool) → b ≡ true → ok (not b) ≡ ok true → ⊥
      ok_not b e h = ground arith

  reply_record_if_new-reply :
      (scope id : String) (duration window : ℤ) (link : Link) (d : Db)
      → not_positive (whole_seconds window) ≡ false
      → (record_if_new r scope id duration window link d).0
        ≡ reply scope link (counted r scope id d)
  unfolding record_if_new
  reply_record_if_new-reply scope id duration window delivered d h =
      reply_record_if_new scope id duration window d
  reply_record_if_new-reply scope id duration window refused d h = refl
  reply_record_if_new-reply scope id duration window lost d h = refl
  reply_record_if_new-reply scope id duration window (retried link) d h =
      reply_record_if_new-reply scope id duration window link _ h
      ∙ ap (reply scope link) (counted_self scope id duration window d h)

  -- A call with a time to live of at least a second counts the finding once: if the script runs and
  -- the finding was not counted before, the buckets that its duration is within, the overflow bucket
  -- and the count of its own scope grow by one and the sum by the duration, and no other statistic of
  -- any scope changes. The dedup sets then hold the finding and what they held. The reply says
  -- whether the finding was new, and is an error if the script did not run or the reply is lost. If the client makes the call again after a lost reply,
  -- all its runs together change no more than one, and a reply then says that the finding was not new.
  pub record_if_new_lem :
      (scope id : String) (duration window : ℤ) (link : Link) (d : Db) (j y : String) (s : Stat)
      → not_positive (whole_seconds window) ≡ false
      → IsStat s
      → let after = record_if_new r scope id duration window link d in
        (after.0 ≡ reply scope link (counted r scope id d))
        × (stat r j s after.1 ≡ (
            if (ran link && not (counted r scope id d)) && scope == j
            then stat r j s d +ℤ gain duration s
            else stat r j s d))
        × (counted r j y after.1 ≡ ((ran link && (scope == j && id == y)) || counted r j y d))
  record_if_new_lem scope id duration window link d j y s h k = (
    reply_record_if_new-reply scope id duration window link d h,
    stat_record_if_new scope id duration window link d j s h k,
    counted_record_if_new scope id duration window link d j y h,
  )
