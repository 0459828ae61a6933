-- ===== src/Examples/Collector.antt =====
-- Examples about internal/collector/collector.go: a provider that answers once and then fails.
use scm_metrics_exporter.Prelude.{ℕ, zero, suc, ◌≡◌, refl, true, none, List, [], ◌∷◌}
use scm_metrics_exporter.Prelude.Assoc.{lookup}
use scm_metrics_exporter.Prelude.Errors.{Result, ok, err, message, join_errors, is_some}
use scm_metrics_exporter.Provider.{Snapshot, empty_snapshot}
use scm_metrics_exporter.Collector.{Source, Entry, Collector, new, latest, poll_all}
use scm_metrics_exporter.Collector.Polling.{answers, all_hard, all_reports, last_ok, poll_all_lem}

abbrev partial : Snapshot
partial = record empty_snapshot { source_errors = record { source = "rest" } ∷ [] }

abbrev answer : ℕ → Result Snapshot
answer zero = ok partial
answer (suc n) = err (message "down")

abbrev github : Source ℕ
github = record { name = "github"; snapshot = λ target n. (answer n, suc n); snapshot_repo = none }

abbrev entries : List (Entry ℕ)
entries =
    record { provider = github; target = "acme"; repo = "" }
    ∷ record { provider = github; target = "acme"; repo = "" }
    ∷ []

abbrev start : Collector ℕ
start = new 0

poll_all_lem_example :
    let (given, w) = answers entries 0 in
    ((poll_all entries start).0 ≡ join_errors (all_hard given))
    × ((poll_all entries start).1.world ≡ w)
    × ((poll_all entries start).1.scrape_errors ≡ all_reports given)
    × (latest "github" (poll_all entries start).1 ≡ last_ok "github" given (latest "github" start))
poll_all_lem_example = poll_all_lem entries start "github"

abbrev polled : Collector ℕ
polled = record { by_name = ("github", partial) ∷ []; scrape_errors = []; world = 1 }

polled-is_some : is_some (latest "github" polled) ≡ true
unfolding latest lookup
polled-is_some = refl
