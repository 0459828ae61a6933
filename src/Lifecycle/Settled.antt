-- ===== src/Lifecycle/Settled.antt =====
-- The pass of internal/lifecycle/record.go over the store of internal/store/valkey.go: what one
-- pass adds, and what a second pass over the same snapshot adds.
use scm_metrics_exporter.Prelude.{
  String, ◌≡◌, refl, sym, ap, ◌∙◌, Bool, true, false, not, ◌||◌, ◌&&◌, Option, none, List, [], ◌∷◌,
  ◌++◌, All, All-map, if◌then◌else◌, ◌==◌, string_eq, beq_refl,
}
use scm_metrics_exporter.Prelude.Int.{ℤ, pos, ◌+ℤ◌}
use scm_metrics_exporter.Prelude.Errors.{Error, join_errors}
use scm_metrics_exporter.Provider.{Snapshot}
use scm_metrics_exporter.Store.{
  record_if_new, Link, delivered, refused, lost, retried, whole_seconds,
}
use scm_metrics_exporter.Store.Fields.{Stat, IsStat}
use scm_metrics_exporter.Store.Counting.{ran, stat_record_if_new, counted_record_if_new}
use scm_metrics_exporter.Store.Script.{gain, stat, counted}
use scm_metrics_exporter.Store.Server.{Redis, IsRedis, not_positive}
use scm_metrics_exporter.Lifecycle.{RecordStore, error_of, record_snapshot}
use scm_metrics_exporter.Lifecycle.Observations.{
  Observation, observations, calls, record_repos-calls,
}

-- What the connection does with the calls to come, in order; after those it delivers.
abbrev pub next : List Link → Link × List Link
next [] = (delivered, [])
next (x ∷ xs) = (x, xs)

abbrev pub valkey : Redis → RecordStore
valkey r = record {
  State = r.Db × List Link;
  record_if_new = λ scope id duration window (d, links).
      let (link, rest) = next links in
      let (res, d') = record_if_new r scope id duration window link d in (res, (d', rest));
}

-- What a sequence of calls adds to a statistic of a scope, when `seen` tells the findings that are
-- counted already: each finding counts at its first call.
unfoldable pub credit : (String → String → Bool) → String → Stat → List Observation → ℤ
credit seen j s [] = pos 0
credit seen j s (o ∷ os) =
    let more = credit (λ k y. (o.scope == k && o.id == y) || seen k y) j s os in
    (if not (seen o.scope o.id) && o.scope == j then gain o.duration s else pos 0) +ℤ more

or_true : (b : Bool) → (b || true) ≡ true
or_true true = refl
or_true false = refl

append-nil_left : (xs ys : List Error) → xs ++ ys ≡ [] → (xs ≡ []) × (ys ≡ [])
append-nil_left [] ys e = (refl, e)
append-nil_left (x ∷ xs) ys e = cc

module _ (r : Redis) (l : IsRedis r) (window : ℤ)
    (h : not_positive (whole_seconds window) ≡ false) where
  open r use {Db}

  abbrev Counted : Db → Observation → Type 0
  Counted d o = counted r o.scope o.id d ≡ true

  calls-Counted :
      (o : Observation) (os : List Observation) (d : Db) (links : List Link)
      → Counted d o
      → Counted (calls (valkey r) window os (d, links)).1.0 o
  unfolding calls
  calls-Counted o [] d links k = k
  calls-Counted o (p ∷ os) d links k = calls-Counted o os _ _ (
      counted_record_if_new r l p.scope p.id p.duration window (next links).0 d o.scope o.id h
      ∙ rw k (or_true _))

  -- A call that does not fail counts its finding.
  counts_one :
      (o : Observation) (d : Db) (link : Link)
      → error_of (record_if_new r o.scope o.id o.duration window link d).0 ≡ []
      → Counted (record_if_new r o.scope o.id o.duration window link d).1 o
  unfolding record_if_new
  counts_one o d delivered e =
      counted_record_if_new r l o.scope o.id o.duration window delivered d o.scope o.id h
      ∙ rw (beq_refl o.scope, beq_refl o.id) refl
  counts_one o d (retried link) e =
      counted_record_if_new r l o.scope o.id o.duration window (retried link) d o.scope o.id h
      ∙ rw (beq_refl o.scope, beq_refl o.id) refl
  counts_one o d refused e = cc
  counts_one o d lost e = cc

  -- Calls none of which fails count all their findings.
  calls-All :
      (os : List Observation) (d : Db) (links : List Link)
      → (calls (valkey r) window os (d, links)).0 ≡ []
      → All (Counted (calls (valkey r) window os (d, links)).1.0) os
  unfolding calls
  calls-All [] d links e = tt
  calls-All (o ∷ os) d links e =
      let step = append-nil_left _ _ e in
      (calls-Counted o os _ _ (counts_one o d (next links).0 step.0), calls-All os _ _ step.1)

  -- Calls of findings that are counted change nothing.
  calls-keep :
      (os : List Observation) (d : Db) (links : List Link) (j : String) (s : Stat)
      → IsStat s
      → All (Counted d) os
      → stat r j s (calls (valkey r) window os (d, links)).1.0 ≡ stat r j s d
  unfolding calls
  calls-keep [] d links j s k c = refl
  calls-keep (o ∷ os) d links j s k (c, cs) =
      calls-keep os _ _ j s k (
        All-map (Counted d) (Counted _)
          (λ p q.
            counted_record_if_new r l o.scope o.id o.duration window (next links).0 d p.scope p.id h
            ∙ rw q (or_true _))
          os cs)
      ∙ stat_record_if_new r l o.scope o.id o.duration window (next links).0 d j s h k
      ∙ rw c (no_change (ran (next links).0) _ _)
    where
      no_change : (b : Bool) (x y : ℤ) → (if (b && false) && o.scope == j then x else y) ≡ y
      no_change true x y = refl
      no_change false x y = refl

  -- What is recorded of a snapshot.
  abbrev observed : String → Bool → Snapshot → List Observation
  observed name severity snap = observations name severity snap.repos

  abbrev pass : String → Bool → Snapshot → Db × List Link → Option Error × (Db × List Link)
  pass name severity snap s = record_snapshot (valkey r) name window severity snap s

  pass-calls :
      (name : String) (severity : Bool) (snap : Snapshot) (s : Db × List Link)
      → pass name severity snap s ≡ (
        join_errors (calls (valkey r) window (observed name severity snap) s).0,
        (calls (valkey r) window (observed name severity snap) s).1,
      )
  unfolding record_snapshot
  pass-calls name severity snap s =
      rw (record_repos-calls (valkey r) window name severity snap.repos s) refl

  -- With a window of at least a second, if a pass reports no error, then a second pass over the same
  -- snapshot, before any dedup set expires, changes no statistic of any scope, whatever the connection
  -- does with its calls.
  pub record_snapshot_settled :
      (name : String) (severity : Bool) (snap : Snapshot) (d : Db) (links later : List Link)
      → (record_snapshot (valkey r) name window severity snap (d, links)).0 ≡ none
      → (j : String) (s : Stat) → IsStat s
      → let d' = (record_snapshot (valkey r) name window severity snap (d, links)).1.0 in
        stat r j s (record_snapshot (valkey r) name window severity snap (d', later)).1.0
        ≡ stat r j s d'
  record_snapshot_settled name severity snap d links later e j s k =
      let os = observed name severity snap in
      rw (pass-calls name severity snap (d, links)) (
        rw (pass-calls name severity snap (_, later)) (
          calls-keep os _ later j s k (
            calls-All os d links (
              no_errors (calls (valkey r) window os (d, links)).0
                (ap (λ x. x.0) (sym (pass-calls name severity snap (d, links))) ∙ e)))))
    where
      no_errors : (es : List Error) → join_errors es ≡ none → es ≡ []
      no_errors [] h = refl
      no_errors (x ∷ es) h = cc
