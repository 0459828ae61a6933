-- ===== src/Exporter/Once.antt =====
-- Run-once mode of cmd/exporter/main.go, from the environment to the store.
use mathlib.Core.List.{append-nil}
use scm_metrics_exporter.Prelude.{
  ℕ, String, ◌≡◌, refl, sym, ap, ap₂, ◌∙◌, Bool, true, false, not, ◌&&◌, Option, none, some, List,
  [], ◌∷◌, ◌++◌, if◌then◌else◌, string_eq, beq_refl,
}
use scm_metrics_exporter.Prelude.Assoc.{lookup}
use scm_metrics_exporter.Prelude.Errors.{Error, join_errors, Result, ok, err}
use scm_metrics_exporter.Prelude.Text.{Unicode}
use scm_metrics_exporter.Provider.{Snapshot, source_lifecycle}
use scm_metrics_exporter.Config.{Config, Environment, load}
use scm_metrics_exporter.Collector.{
  Source, Collector, new, latest, on_scrape_error, fetch, poll_all,
}
use scm_metrics_exporter.Collector.Polling.{
  all_hard, reports, all_reports, answers, last_ok, poll_all_lem,
}
use scm_metrics_exporter.Lifecycle.{RecordStore, record_snapshot}
use scm_metrics_exporter.Exporter.{
  Outside, open_remediation_store, Outcome, build_provider, entry_of, note_unreachable,
  note_failure, record_latest, poll_once, run_exporter,
}

-- One scrape error of the lifecycle store, if there is a failure.
abbrev pub lifecycle_errors : String → Bool → List (String × String)
lifecycle_errors name true = (name, source_lifecycle) ∷ []
lifecycle_errors name false = []

abbrev pub failure_errors : String → Option Error → List (String × String)
failure_errors name none = []
failure_errors name (some _) = (name, source_lifecycle) ∷ []

-- The pass over the resolved findings of a good answer, if the store is open.
abbrev pub recorded :
    (st : RecordStore)
    → Config
    → String
    → (connected : Bool) → Result Snapshot
    → st.State
    → Option Error × st.State
recorded st cfg name true (ok snap) s =
    record_snapshot st name cfg.lifecycle.resolution_window cfg.dimensions.severity snap s
recorded st cfg name true (err _) s = (none, s)
recorded st cfg name false _ s = (none, s)

gathered :
    {A : Type 0} {whole part : List A} (before during after : List A)
    → whole ≡ part ++ after
    → part ≡ before ++ during
    → whole ≡ before ++ during ++ after
gathered before during after p q = p ∙ ap (λ x. x ++ after) q

-- The snapshot that an answer leaves in an empty cache.
abbrev fresh : Result Snapshot → Option Snapshot
fresh (ok snap) = some snap
fresh (err _) = none

last_ok-fresh :
    (name : String) (answer : Result Snapshot)
    → last_ok name (record { provider_name = name; result = answer } ∷ []) none ≡ fresh answer
last_ok-fresh name (ok snap) = rw (beq_refl name) refl
last_ok-fresh name (err _) = refl

module _ {W : Type 0} (out : Outside W) (cfg : Config) (repo : String) (prov : Source W)
    (w : W) where
  -- The collector before the poll, after the store was found unreachable or not.
  note_unreachable_lem :
      let c = note_unreachable out cfg prov (new w) in
      let connected = open_remediation_store out.reachable cfg.lifecycle in
      (c.world ≡ w)
      × (c.scrape_errors ≡ lifecycle_errors prov.name (cfg.lifecycle.enabled && not connected))
      × (latest prov.name c ≡ none)
  unfolding note_unreachable latest lookup
  note_unreachable_lem = go (cfg.lifecycle.enabled && not _)
    where
      go :
          (b : Bool)
          → let c = (if b then on_scrape_error prov.name source_lifecycle (new w) else new w) in
            (c.world ≡ w)
            × (c.scrape_errors ≡ lifecycle_errors prov.name b)
            × (latest prov.name c ≡ none)
      go true = (refl, refl, refl)
      go false = (refl, refl, refl)

  note_failure_lem :
      (failure : Option Error) (c : Collector W)
      → ((note_failure out prov.name failure c).world ≡ c.world)
        × ((note_failure out prov.name failure c).scrape_errors
            ≡ c.scrape_errors ++ failure_errors prov.name failure)
  note_failure_lem none c = (refl, sym (append-nil c.scrape_errors))
  note_failure_lem (some e) c = (refl, refl)

  record_latest_lem :
      (c : Collector W) (answer : Result Snapshot) (s : out.store.State)
      → latest prov.name c ≡ fresh answer
      → let (failure, s') = recorded out.store cfg prov.name true answer s in
        let (c', t) = record_latest out cfg prov.name c s in
        (c'.world ≡ c.world)
        × (c'.scrape_errors ≡ c.scrape_errors ++ failure_errors prov.name failure)
        × (t ≡ s')
  unfolding record_latest
  record_latest_lem c (err _) s h =
      rw (h, record_latest) (refl, sym (append-nil c.scrape_errors), refl)
  record_latest_lem c (ok snap) s h = rw (h, record_latest) (noted.0, noted.1, refl)
    where
      failure : Option Error
      failure = (recorded out.store cfg prov.name true (ok snap) s).0

      noted :
          ((note_failure out prov.name failure c).world ≡ c.world)
          × ((note_failure out prov.name failure c).scrape_errors
              ≡ c.scrape_errors ++ failure_errors prov.name failure)
      noted = note_failure_lem failure c

  settled :
      (c : Collector W) (answer : Result Snapshot) (s : out.store.State) (failed : Option Error)
      (connected : Bool)
      → latest prov.name c ≡ fresh answer
      → let (failure, s') = recorded out.store cfg prov.name connected answer s in
        let (c', t) = record_latest out cfg prov.name c s in
        let done : Outcome out =
          if connected
          then record { error = failed; collector = c'; store = t }
          else record { error = failed; collector = c; store = s } in
        (done.error ≡ failed)
        × (done.collector.world ≡ c.world)
        × (done.collector.scrape_errors ≡ c.scrape_errors ++ failure_errors prov.name failure)
        × (done.store ≡ s')
  settled c answer s failed true h =
      let (a, b, d) = record_latest_lem c answer s h in (refl, a, b, d)
  settled c answer s failed false h = (refl, refl, sym (append-nil c.scrape_errors), refl)

  abbrev start : Collector W
  start = note_unreachable out cfg prov (new w)

  -- The poll and, with an open store, the pass over the findings.
  pub poll_once_lem :
      (s : out.store.State)
      → let (answer, w') = fetch (entry_of out cfg repo prov) w in
        let connected = open_remediation_store out.reachable cfg.lifecycle in
        let (failure, s') = recorded out.store cfg prov.name connected answer s in
        let done = poll_once out cfg repo prov (new w) s in
        (done.error
          ≡ join_errors (all_hard (record { provider_name = prov.name; result = answer } ∷ [])))
        × (done.collector.world ≡ w')
        × (done.collector.scrape_errors
            ≡ lifecycle_errors prov.name (cfg.lifecycle.enabled && not connected)
              ++ reports prov.name answer
              ++ failure_errors prov.name failure)
        × (done.store ≡ s')
  unfolding poll_once
  poll_once_lem s =
      let es = entry_of out cfg repo prov ∷ [] in
      let (world_is, noted, empty) = note_unreachable_lem in
      let polled = poll_all_lem es start prov.name in
      let (failed, world_after, counted, stored) =
        settled (poll_all es start).1 (fetch (entry_of out cfg repo prov) w).0 s
          (poll_all es start).0 (open_remediation_store out.reachable cfg.lifecycle)
          (polled.3
            ∙ ap₂ (λ x o. last_ok prov.name (answers es x).0 o) world_is empty
            ∙ last_ok-fresh prov.name _) in
      (
        failed ∙ polled.0 ∙ ap (λ x. join_errors (all_hard (answers es x).0)) world_is,
        world_after ∙ polled.1 ∙ ap (λ x. (answers es x).1) world_is,
        gathered (lifecycle_errors prov.name _) (reports prov.name _) _ counted (
            polled.2
            ∙ ap₂ (λ x y. y ++ all_reports (answers es x).0) world_is noted
            ∙ ap (◌++◌ _) (append-nil (reports prov.name _))),
        stored,
      )

module _ ⦃u : Unicode⦄ {W : Type 0} where
  -- Where the environment loads, the constructor of its provider gives one and metrics.Setup does not
  -- fail, run-once mode asks the provider once. It ends with exactly the failure of the answer, a
  -- cancellation being none. Its scrape errors are, in this order: one of the lifecycle store, if that
  -- is asked for and out of reach; those of the answer; one of the lifecycle store, if the pass over
  -- the resolved findings of a good answer fails. That pass is what the store is left with; it does
  -- not happen after a failed answer or without an open store.
  pub run_exporter_lem :
      (out : Outside W) (env : Environment) (name repo : String) (ticks : ℕ) (w : W)
      (s : out.store.State) (cfg : Config) (prov : Source W)
      → load env name ≡ ok cfg
      → build_provider out cfg repo ≡ ok prov
      → out.setup ≡ none
      → let (answer, w') = fetch (entry_of out cfg repo prov) w in
        let connected = open_remediation_store out.reachable cfg.lifecycle in
        let (failure, s') = recorded out.store cfg prov.name connected answer s in
        let done = run_exporter out env name true repo ticks w s in
        (done.error
          ≡ join_errors (all_hard (record { provider_name = prov.name; result = answer } ∷ [])))
        × (done.collector.world ≡ w')
        × (done.collector.scrape_errors
            ≡ lifecycle_errors prov.name (cfg.lifecycle.enabled && not connected)
              ++ reports prov.name answer
              ++ failure_errors prov.name failure)
        × (done.store ≡ s')
  unfolding run_exporter
  run_exporter_lem out env name repo ticks w s cfg prov loaded built set_up =
      rw (loaded, built, set_up, run_exporter) (poll_once_lem out cfg repo prov w s)
