-- ===== src/Store/Script.antt =====
-- What the commands of the script of `RecordIfNew` (internal/store/valkey.go) do to the server.
use Prim.Native.Char.{code}
use Prim.Native.String
use text.Mathlib.TextLemmas.{cons-append}
use scm_metrics_exporter.Prelude.{
  ℕ, ◌+◌, String, ◌≡◌, refl, ap, ◌∙◌, Bool, true, false, not, ◌||◌, ◌&&◌, List, [], ◌∷◌, is_empty,
  count, if◌then◌else◌, ◌==◌, nat_eq, string_eq, arith, inl, inr, Bool-cases, beq_refl, beq_false,
}
use scm_metrics_exporter.Prelude.Int.{ℤ, pos, ◌+ℤ◌, int_laws}
use scm_metrics_exporter.Prelude.Assoc.{get}
use scm_metrics_exporter.Store.{
  counted_key, hist_key, hist_index_key, selected_fields, bump_fields, count_finding, record_script,
}
use scm_metrics_exporter.Store.Fields.{
  Stat, bucket, sum, total, field, IsStat, hits, is_sum, is_total, sum-beq, total-beq,
  count-selected_fields, hist_key-beq, counted_key-beq,
}
use scm_metrics_exporter.Store.Server.{Redis, IsRedis, is_member, hget, hash_exists, not_positive}

-- What a finding that is counted adds to a statistic.
abbrev pub gain : ℤ → Stat → ℤ
gain duration (bucket b) = pos (hits duration (bucket b))
gain duration sum = duration
gain duration total = pos 1

first_code : String → ℕ
first_code String.[] = 0
first_code (String.◌∷◌ c s) = code c

pub index-ne-counted : (j : String) → (hist_index_key == counted_key j) ≡ false
unfolding counted_key first_code
index-ne-counted j =
    beq_false hist_index_key (String.◌++◌ "counted:" j)
      λ e. absurd (omega (arith, ap first_code (e ∙ cons-append "c" "ounted:" j)))

add-suc : (a : ℤ) (n : ℕ) → a +ℤ pos 1 +ℤ pos n ≡ a +ℤ pos (1 + n)
add-suc a n = omega int_laws

add-zero : (a : ℤ) → a +ℤ pos 0 ≡ a
add-zero a = omega int_laws

module _ (r : Redis) where
  open r use {Db}

  -- A statistic of a scope's histogram, and whether a finding is in the scope's dedup set.
  abbrev pub stat : String → Stat → Db → ℤ
  stat scope s d = hget r (hist_key scope) (field s) d

  abbrev pub counted : String → String → Db → Bool
  counted scope id d = is_member r (counted_key scope) id d

module _ (r : Redis) (l : IsRedis r) where
  open r use {Db, sadd, expire, hincrby, smembers, hgetall, lapse}

  hget-bump_fields :
      (hist j g : String) (fs : List String) (d : Db)
      → hget r j g (bump_fields r hist fs d)
        ≡ (if hist == j then hget r j g d +ℤ pos (count (λ f. f == g) fs) else hget r j g d)
  unfolding bump_fields
  hget-bump_fields hist j g [] d = ground (arith, add-zero (hget r j g d))
  hget-bump_fields hist j g (f ∷ fs) d =
      hget-bump_fields hist j g fs (hincrby hist f (pos 1) d)
      ∙ rw (l.hget_hincrby hist f (pos 1) j g d)
          (ground (arith, add-suc (hget r j g d) (count (λ x. x == g) fs)))

  hget-sadd : (k x j g : String) (d : Db) → hget r j g (sadd k x d).1 ≡ hget r j g d
  hget-sadd k x j g d = ap (λ m. get (pos 0) g m) (l.hash_sadd k x j d)

  -- The increments of the script, on every statistic of every scope.
  hget-count_finding :
      (hist index j : String) (duration : ℤ) (s : Stat) (d : Db)
      → IsStat s
      → hget r j (field s) (count_finding r hist index duration (selected_fields duration) d)
        ≡ (if hist == j then hget r j (field s) d +ℤ gain duration s else hget r j (field s) d)
  unfolding count_finding
  hget-count_finding hist index j duration s d h =
      hget-sadd index hist j (field s) _
      ∙ rw (l.hget_hincrby hist "count" (pos 1) j (field s) _) (
          rw (l.hget_hincrby hist "sum" duration j (field s) _) (
            rw (hget-bump_fields hist j (field s) (selected_fields duration) d) (
              rw (sum-beq s h, total-beq s h, count-selected_fields duration s h)
                (last (hist == j) (hget r j (field s) d) s))))
    where
      last :
          (b : Bool) (a : ℤ) (s : Stat)
          → (if b && is_total s
              then (if b && is_sum s
                  then (if b then a +ℤ pos (hits duration s) else a) +ℤ duration
                  else if b
                  then a +ℤ pos (hits duration s)
                  else a)
                +ℤ pos 1
              else (if b && is_sum s
                  then (if b then a +ℤ pos (hits duration s) else a) +ℤ duration
                  else if b
                  then a +ℤ pos (hits duration s)
                  else a))
            ≡ (if b then a +ℤ gain duration s else a)
      last false a s = refl
      last true a (bucket b) = refl
      last true a sum = rw add-zero
      last true a total = rw add-zero

  member-bump_fields :
      (hist j y : String) (fs : List String) (d : Db)
      → is_member r j y (bump_fields r hist fs d) ≡ is_member r j y d
  unfolding bump_fields
  member-bump_fields hist j y [] d = refl
  member-bump_fields hist j y (f ∷ fs) d =
      member-bump_fields hist j y fs (hincrby hist f (pos 1) d)
      ∙ l.member_hincrby hist f (pos 1) j y d

  pub member-count_finding :
      (hist index j y : String) (duration : ℤ) (fs : List String) (d : Db)
      → is_member r j y (count_finding r hist index duration fs d)
        ≡ ((index == j && hist == y) || is_member r j y d)
  unfolding count_finding
  member-count_finding hist index j y duration fs d =
      l.member_sadd index hist j y _
      ∙ rw (l.member_hincrby hist "count" (pos 1) j y _) (
          rw (l.member_hincrby hist "sum" duration j y _)
            (rw (member-bump_fields hist j y fs d) refl))

  pub exists_count_finding :
      (hist index : String) (duration : ℤ) (fs : List String) (d : Db)
      → hash_exists r hist (count_finding r hist index duration fs d) ≡ true
  unfolding count_finding
  exists_count_finding hist index duration fs d =
      ap (λ m. if is_empty m then false else true) (l.hash_sadd index hist hist _)
      ∙ l.exists_hincrby hist "count" (pos 1) hist _
      ∙ rw (beq_refl hist) refl

  -- The dedup set after the script's first two commands.
  abbrev pub marked : String → String → ℤ → Db → Db
  marked scope id ttl d = expire (counted_key scope) ttl (sadd (counted_key scope) id d).1

  stat-marked :
      (scope id j : String) (ttl : ℤ) (s : Stat) (d : Db)
      → stat r j s (marked scope id ttl d) ≡ stat r j s d
  stat-marked scope id j ttl s d =
      ap (λ m. get (pos 0) (field s) m)
        (l.hash_expire (counted_key scope) ttl (hist_key j) (sadd (counted_key scope) id d).1
          ∙ l.hash_sadd (counted_key scope) id (hist_key j) d)

  counted-marked :
      (scope id j y : String) (ttl : ℤ) (d : Db)
      → not_positive ttl ≡ false
      → counted r j y (marked scope id ttl d) ≡ ((scope == j && id == y) || counted r j y d)
  counted-marked scope id j y ttl d h =
      l.member_expire (counted_key scope) ttl (counted_key j) y (sadd (counted_key scope) id d).1
      ∙ rw (h, counted_key-beq scope j)
          (rw (l.member_sadd (counted_key scope) id (counted_key j) y d)
            (rw (counted_key-beq scope j) (no_change (scope == j) _)))
    where
      no_change : (b c : Bool) → (if b && false then false else c) ≡ c
      no_change true c = refl
      no_change false c = refl

  abbrev pub script : String → String → ℤ → ℤ → Db → ℕ × Db
  script scope id duration ttl d =
      record_script r (counted_key scope) (hist_key scope) hist_index_key id ttl duration
        (selected_fields duration) d

  -- The script returns early exactly if the finding was counted before.
  pub script-eq :
      (scope id : String) (duration ttl : ℤ) (d : Db)
      → script scope id duration ttl d ≡ (
          if counted r scope id d then (0, marked scope id ttl d) else (
            1,
            count_finding r
                (hist_key scope)
                hist_index_key
                duration
                (selected_fields duration)
                (marked scope id ttl d),
          ))
  unfolding record_script
  script-eq scope id duration ttl d = elim (Bool-cases (counted r scope id d)) [
    | inl old ↦ rw (l.sadd_reply (counted_key scope) id d) (rw old refl)
    | inr new ↦ rw (l.sadd_reply (counted_key scope) id d) (rw new refl)
  ]

  pub stat-script :
      (scope id j : String) (duration ttl : ℤ) (s : Stat) (d : Db)
      → IsStat s
      → stat r j s (script scope id duration ttl d).1 ≡ (
          if not (counted r scope id d) && scope == j
          then stat r j s d +ℤ gain duration s
          else stat r j s d)
  stat-script scope id j duration ttl s d h = elim (Bool-cases (counted r scope id d)) [
    | inl old ↦ rw (script-eq scope id duration ttl d) (rw old (stat-marked scope id j ttl s d))
    | inr new ↦ rw (script-eq scope id duration ttl d) (
        rw new (
          hget-count_finding (hist_key scope) hist_index_key (hist_key j) duration s
            (marked scope id ttl d) h
          ∙ rw (hist_key-beq scope j, stat-marked scope id j ttl s d) refl))
  ]

  pub counted-script :
      (scope id j y : String) (duration ttl : ℤ) (d : Db)
      → not_positive ttl ≡ false
      → counted r j y (script scope id duration ttl d).1
        ≡ ((scope == j && id == y) || counted r j y d)
  counted-script scope id j y duration ttl d h = elim (Bool-cases (counted r scope id d)) [
    | inl old ↦
        rw (script-eq scope id duration ttl d) (rw old (counted-marked scope id j y ttl d h))
    | inr new ↦ rw (script-eq scope id duration ttl d) (
        rw new (
          member-count_finding (hist_key scope) hist_index_key (counted_key j) y duration
            (selected_fields duration) (marked scope id ttl d)
          ∙ rw (index-ne-counted j) (counted-marked scope id j y ttl d h)))
  ]

  pub reply-script :
      (scope id : String) (duration ttl : ℤ) (d : Db)
      → ((script scope id duration ttl d).0 == 1) ≡ not (counted r scope id d)
  reply-script scope id duration ttl d = elim (Bool-cases (counted r scope id d)) [
    | inl old ↦ rw (script-eq scope id duration ttl d) (rw old refl)
    | inr new ↦ rw (script-eq scope id duration ttl d) (rw new refl)
  ]
