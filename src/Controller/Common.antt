-- ===== src/Controller/Common.antt =====
-- internal/controller/common.go: the pause on a low API budget, the discovery interval, and the
-- translation of selectors. `now` is the clock's time.
use scm_metrics_exporter.Prelude.{
  ℕ, ◌^◌, String, Bool, true, not, ◌||◌, Option, none, some, if◌then◌else◌, ◌==◌, nat_eq, string_eq,
}
use scm_metrics_exporter.Prelude.Int.{
  ℤ, pos, leb_ℤ, ltb_ℤ, ◌+ℤ◌, ◌-ℤ◌, sub_time, max_int64, min_int64,
}
use scm_metrics_exporter.Prelude.Errors.{Result, ok, err}
use scm_metrics_exporter.Api.{RepoFilter, AutoDiscover, Condition}
use scm_metrics_exporter.Discovery.{Filter, Selector, Budget}

abbrev pub credential_requeue : ℤ
credential_requeue = pos 60_000_000_000

abbrev pub pending_requeue : ℤ
pending_requeue = pos 30_000_000_000

abbrev pub rate_limit_buffer : ℤ
rate_limit_buffer = pos 15_000_000_000

-- The wrap-around of a sum of two `int64`.
unfoldable pub wrap_int64 : ℤ → ℤ
wrap_int64 d =
    if ltb_ℤ max_int64 d
    then d -ℤ pos (2 ^ 64)
    else if ltb_ℤ d min_int64
    then d +ℤ pos (2 ^ 64)
    else d

unfoldable pub rate_limit_requeue : (now : ℤ) → ℤ → ℤ
rate_limit_requeue now reset =
    let d = wrap_int64 (sub_time reset now +ℤ rate_limit_buffer) in
    if ltb_ℤ d pending_requeue then pending_requeue else d

-- The requeue delay, if dispatch is to pause.
unfoldable pub rate_limited : (now : ℤ) → (threshold : ℤ) → Result Budget → Option ℤ
rate_limited now threshold (err e) = none
rate_limited now threshold (ok b) =
    if leb_ℤ threshold (pos 0)
    then none
    else if not b.known || leb_ℤ threshold b.remaining
    then none
    else some (rate_limit_requeue now b.reset)

unfoldable pub ready_condition : ℕ → Bool → String → Condition
ready_condition generation ready reason = record {
  ready = ready;
  reason = reason;
  observed_generation = generation;
}

unfoldable pub needs_discovery : (now : ℤ) → Option ℤ → ℕ → ℤ → Bool
needs_discovery now none count interval = true
needs_discovery now (some last) count interval =
    if count == 0 then true else leb_ℤ interval (sub_time now last)

abbrev pub filter_from : RepoFilter → Filter
filter_from f = record {
  topics = f.topics;
  visibility = f.visibility;
  name_patterns = f.name_patterns;
  archived = f.archived;
}

unfoldable pub selector_from : AutoDiscover → Selector
selector_from a = record { include = filter_from a.include; exclude = filter_from a.exclude }
