-- ===== src/Collector.antt =====
-- internal/collector/collector.go: the poll loop and the cache of the latest snapshot per provider.
-- What the providers answer comes from a state of the outside world that every call may change.
pub mod Polling
use scm_metrics_exporter.Prelude.{
  ℕ, zero, suc, ◌+◌, String, Bool, true, false, Option, none, some, List, [], ◌∷◌, ◌++◌, map,
  length, if◌then◌else◌, ◌==◌, string_eq,
}
use Prim.Native.String
use scm_metrics_exporter.Prelude.Assoc.{Map, lookup, insert}
use scm_metrics_exporter.Prelude.Errors.{Error, message, is_canceled, join_errors, Result, ok, err}
use scm_metrics_exporter.Provider.{RepoMetrics, Snapshot, SourceError}

-- `provider.Provider`, and `provider.RepoSnapshotter` where the provider implements it.
pub record Source (W : Type 0) : Type 0 where
  pub name : String
  pub snapshot : String → W → Result Snapshot × W
  pub snapshot_repo : Option (String → String → W → Result Snapshot × W)

pub record Entry (W : Type 0) : Type 0 where
  pub provider : Source W
  pub target : String
  pub repo : String

-- The cache, the calls of `onScrapeError` so far (provider and source, the oldest first), and the
-- outside world.
pub record Collector (W : Type 0) : Type 0 where
  pub by_name : Map String Snapshot
  pub scrape_errors : List (String × String)
  pub world : W

-- A copy of a snapshot has the same contents: what is shared with the cache is not modelled here.
abbrev pub clone_snapshot : Snapshot → Snapshot
clone_snapshot s = record {
  repos = s.repos;
  rate_limits = s.rate_limits;
  source_errors = s.source_errors;
}

-- The totals of the log line: open review items and findings.
unfoldable pub summarize : List RepoMetrics → ℕ × ℕ
summarize [] = (0, 0)
summarize (r ∷ rs) =
    let (items, findings) = summarize rs in
    (r.open_review_items + items, length r.findings + findings)

abbrev unsupported : String → Error
unsupported name = message (
    String.◌++◌ (String.◌++◌ "collector: provider " name)
      " does not support single-repo collection")

abbrev option_list : Option Error → List Error
option_list none = []
option_list (some e) = e ∷ []

module _ {W : Type 0} where
  abbrev pub new : W → Collector W
  new w = record { by_name = []; scrape_errors = []; world = w }

  unfoldable pub provider_names : List (Entry W) → List String
  provider_names es = map (λ e. e.provider.name) es

  unfoldable pub latest : String → Collector W → Option Snapshot
  latest name c = elim (lookup name c.by_name) [ none ↦ none | some s ↦ some (clone_snapshot s) ]

  abbrev pub store : String → Snapshot → Collector W → Collector W
  store name snap c = record c { by_name = insert name snap c.by_name }

  abbrev pub on_scrape_error : String → String → Collector W → Collector W
  on_scrape_error name source c = record c {
    scrape_errors = c.scrape_errors ++ (name, source) ∷ [];
  }

  unfoldable pub on_source_errors : String → List SourceError → Collector W → Collector W
  on_source_errors name [] c = c
  on_source_errors name (se ∷ ses) c = on_source_errors name ses (on_scrape_error name se.source c)

  abbrev repo_snapshot :
      Entry W → Option (String → String → W → Result Snapshot × W) → W → Result Snapshot × W
  repo_snapshot e none w = (err (unsupported e.provider.name), w)
  repo_snapshot e (some f) w = f e.target e.repo w

  unfoldable pub fetch : Entry W → W → Result Snapshot × W
  fetch e w =
      if e.repo == ""
      then e.provider.snapshot e.target w
      else repo_snapshot e e.provider.snapshot_repo w

  -- What `pollOne` does with the answer of `fetch`.
  unfoldable pub receive : String → Result Snapshot → Collector W → Option Error × Collector W
  receive name (err e) c = if is_canceled e then (none, c) else (some e, on_scrape_error name "" c)
  receive name (ok snap) c = (none, store name snap (on_source_errors name snap.source_errors c))

  unfoldable pub poll_one : Entry W → Collector W → Option Error × Collector W
  poll_one e c =
      let (answer, w) = fetch e c.world in receive e.provider.name answer (record c { world = w })

  unfoldable pub poll_entries : List (Entry W) → Collector W → List Error × Collector W
  poll_entries [] c = ([], c)
  poll_entries (e ∷ es) c =
      let (res, c) = poll_one e c in
      let (more, c) = poll_entries es c in (option_list res ++ more, c)

  unfoldable pub poll_all : List (Entry W) → Collector W → Option Error × Collector W
  poll_all es c = let (errs, c) = poll_entries es c in (join_errors errs, c)

  -- The first poll of `Run`, and one for each tick of its timer before the context ends.
  unfoldable pub run : List (Entry W) → ℕ → Collector W → Collector W
  run es zero c = (poll_all es c).1
  run es (suc ticks) c = run es ticks (poll_all es c).1
