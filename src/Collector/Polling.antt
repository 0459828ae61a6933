-- ===== src/Collector/Polling.antt =====
-- What a poll of internal/collector/collector.go does to the cache and to the error counter.
use mathlib.Core.List.{append_assoc, append-nil}
use scm_metrics_exporter.Prelude.{
  ℕ, zero, suc, String, ◌≡◌, refl, sym, ap, ap₂, ◌∙◌, true, Option, none, some, List, [], ◌∷◌, ◌++◌,
  map, if◌then◌else◌, ◌==◌, string_eq, inl, inr, Bool-cases,
}
use scm_metrics_exporter.Prelude.Assoc.{lookup, lookup-adjust}
use scm_metrics_exporter.Prelude.Errors.{Error, is_canceled, join_errors, Result, ok, err, is_some}
use scm_metrics_exporter.Provider.{Snapshot, SourceError}
use scm_metrics_exporter.Collector.{
  clone_snapshot, Entry, Collector, latest, on_scrape_error, on_source_errors, option_list, fetch,
  receive, poll_one, poll_entries, poll_all, run,
}

-- What an entry's provider answered.
pub record Answer : Type 0 where
  pub provider_name : String
  pub result : Result Snapshot

-- The failure that an answer is to the caller of the poll: a cancellation is none.
abbrev pub hard : Result Snapshot → Option Error
hard (ok _) = none
hard (err e) = if is_canceled e then none else some e

-- The scrape errors of an answer: one for each failed source, or one without a source for a failure.
abbrev pub reports : String → Result Snapshot → List (String × String)
reports name (ok snap) = map (λ se. (name, se.source)) snap.source_errors
reports name (err e) = if is_canceled e then [] else (name, "") ∷ []

abbrev pub all_hard : List Answer → List Error
all_hard [] = []
all_hard (a ∷ rest) = option_list (hard a.result) ++ all_hard rest

abbrev pub all_reports : List Answer → List (String × String)
all_reports [] = []
all_reports (a ∷ rest) = reports a.provider_name a.result ++ all_reports rest

abbrev pub replaced : String → Answer → Option Snapshot → Option Snapshot
replaced name a old = elim a.result [
  | ok snap ↦ if a.provider_name == name then some snap else old
  | err _ ↦ old
]

-- The last snapshot that a provider answered, or the one before them all.
abbrev pub last_ok : String → List Answer → Option Snapshot → Option Snapshot
last_ok name [] old = old
last_ok name (a ∷ rest) old = last_ok name rest (replaced name a old)

last_ok-is_some :
    (name : String) (given : List Answer) (old : Option Snapshot)
    → is_some old ≡ true
    → is_some (last_ok name given old) ≡ true
last_ok-is_some name [] old h = h
last_ok-is_some name (a ∷ rest) old h = last_ok-is_some name rest _ (kept a.result)
  where
    kept :
        (res : Result Snapshot)
        → is_some (replaced name (record { provider_name = a.provider_name; result = res }) old)
          ≡ true
    kept (err _) = h
    kept (ok snap) = elim (Bool-cases (a.provider_name == name)) [
      | inl e ↦ rw e refl
      | inr e ↦ rw e h
    ]

module _ {W : Type 0} where
  -- The entries' answers, asked in order.
  abbrev pub answers : List (Entry W) → W → List Answer × W
  answers [] w = ([], w)
  answers (e ∷ es) w =
      let (answer, w) = fetch e w in
      let (rest, w) = answers es w in
      (record { provider_name = e.provider.name; result = answer } ∷ rest, w)

  on_source_errors-eq :
      (name : String) (ses : List SourceError) (c : Collector W)
      → on_source_errors name ses c
        ≡ record c { scrape_errors = c.scrape_errors ++ map (λ se. (name, se.source)) ses }
  unfolding on_source_errors
  on_source_errors-eq name [] c =
      ap (λ x. record c { scrape_errors = x }) (sym (append-nil c.scrape_errors))
  on_source_errors-eq name (se ∷ ses) c =
      on_source_errors-eq name ses (on_scrape_error name se.source c)
      ∙ ap (λ x. record c { scrape_errors = x })
          (append_assoc c.scrape_errors ((name, se.source) ∷ []) _)

  -- A collector after one answer, and after a list of them.
  record Received (errs : List Error) (a : List Answer) (w : W) (c c' : Collector W) : Type 0 where
    failures : errs ≡ all_hard a
    world_is : c'.world ≡ w
    scrape_errors_are : c'.scrape_errors ≡ c.scrape_errors ++ all_reports a
    cached : (name : String) → lookup name c'.by_name ≡ last_ok name a (lookup name c.by_name)

  receive-Received :
      (name : String) (res : Result Snapshot) (c : Collector W)
      → Received
          (option_list (receive name res c).0)
          (record { provider_name = name; result = res } ∷ [])
          c.world
          c
          (receive name res c).1
  unfolding receive
  receive-Received name (err e) c = elim (Bool-cases (is_canceled e)) [
    | inl h ↦ record {
      failures = rw h refl;
      world_is = rw h refl;
      scrape_errors_are = rw h (sym (append-nil c.scrape_errors));
      cached = λ n. rw h refl;
    }
    | inr h ↦ record {
      failures = rw h refl;
      world_is = rw h refl;
      scrape_errors_are = rw h refl;
      cached = λ n. rw h refl;
    }
  ]
  receive-Received name (ok snap) c = rw (on_source_errors-eq name snap.source_errors c) (record {
    failures = refl;
    world_is = refl;
    scrape_errors_are = ap (◌++◌ c.scrape_errors) (sym (append-nil _));
    cached = λ n. lookup-adjust snap (λ _. snap) name n c.by_name;
  })

  poll_entries-Received :
      (es : List (Entry W)) (c : Collector W)
      → Received
          (poll_entries es c).0
          (answers es c.world).0
          (answers es c.world).1
          c
          (poll_entries es c).1
  unfolding poll_entries poll_one
  poll_entries-Received [] c = record {
    failures = refl;
    world_is = refl;
    scrape_errors_are = sym (append-nil c.scrape_errors);
    cached = λ n. refl;
  }
  poll_entries-Received (e ∷ es) c =
      let (res, w) = fetch e c.world in
      let here = receive-Received e.provider.name res (record c { world = w }) in
      let later = poll_entries-Received es (poll_one e c).1 in
      record {
        failures =
            ap₂ ◌++◌ (here.failures ∙ append-nil _)
              (later.failures ∙ ap (λ x. all_hard (answers es x).0) here.world_is);
        world_is = later.world_is ∙ ap (λ x. (answers es x).1) here.world_is;
        scrape_errors_are =
            later.scrape_errors_are
            ∙ ap₂ ◌++◌ (here.scrape_errors_are ∙ ap (◌++◌ c.scrape_errors) (append-nil _))
                (ap (λ x. all_reports (answers es x).0) here.world_is)
            ∙ append_assoc c.scrape_errors _ _;
        cached = λ n.
            later.cached n
            ∙ ap₂ (λ x y. last_ok n (answers es x).0 y) here.world_is (here.cached n);
      }

  latest-lookup : (name : String) (c : Collector W) → latest name c ≡ lookup name c.by_name
  unfolding latest
  latest-lookup name c = go (lookup name c.by_name)
    where
      go : (o : Option Snapshot) → (elim o [ none ↦ none | some s ↦ some (clone_snapshot s) ]) ≡ o
      go none = refl
      go (some s) = refl

  -- A poll asks every entry once, in order, each after what the earlier ones did to the outside
  -- world. It reports exactly the failures that are no cancellation, joined. It counts a scrape
  -- error for each source that a snapshot names as failed, and one without a source for a failed
  -- provider. The cached snapshot of a provider is then the last one that the provider gave; a
  -- failure or a cancellation leaves it as it was.
  pub poll_all_lem :
      (es : List (Entry W)) (c : Collector W) (name : String)
      → let (given, w) = answers es c.world in
        ((poll_all es c).0 ≡ join_errors (all_hard given))
        × ((poll_all es c).1.world ≡ w)
        × ((poll_all es c).1.scrape_errors ≡ c.scrape_errors ++ all_reports given)
        × (latest name (poll_all es c).1 ≡ last_ok name given (latest name c))
  unfolding poll_all
  poll_all_lem es c name =
      let p = poll_entries-Received es c in
      (
        ap join_errors p.failures,
        p.world_is,
        p.scrape_errors_are,
        latest-lookup name _
            ∙ p.cached name
            ∙ ap (last_ok name (answers es c.world).0) (sym (latest-lookup name c)),
      )

  -- A provider that has a snapshot once has one at every later time, however the polls go.
  pub run-is_some :
      (es : List (Entry W)) (ticks : ℕ) (name : String) (c : Collector W)
      → is_some (latest name c) ≡ true
      → is_some (latest name (run es ticks c)) ≡ true
  unfolding run
  run-is_some es zero name c h =
      rw ((poll_all_lem es c name).3)
        (last_ok-is_some name (answers es c.world).0 (latest name c) h)
  run-is_some es (suc ticks) name c h = run-is_some es ticks name _ (
      rw ((poll_all_lem es c name).3)
        (last_ok-is_some name (answers es c.world).0 (latest name c) h))
