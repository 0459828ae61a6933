-- ===== src/Store/ShortWindow.antt =====
-- `RecordIfNew` (internal/store/valkey.go) with a window below one second.
use scm_metrics_exporter.Prelude.{String, ◌≡◌, refl, ◌∙◌, true, string_eq}
use scm_metrics_exporter.Prelude.Int.{ℤ}
use scm_metrics_exporter.Prelude.Errors.{ok}
use scm_metrics_exporter.Store.{record_if_new, whole_seconds, delivered}
use scm_metrics_exporter.Store.Counting.{counted_after, reply_record_if_new}
use scm_metrics_exporter.Store.Server.{Redis, IsRedis, not_positive}

module _ (r : Redis) (l : IsRedis r) where
  open r use {Db}

  -- A window below one second becomes a time to live of zero, which deletes the dedup set: the same
  -- finding counts as new on every call.
  pub short_window_counts_again :
      (scope id : String) (duration window : ℤ) (d : Db)
      → not_positive (whole_seconds window) ≡ true
      → (record_if_new r scope id duration window delivered
          (record_if_new r scope id duration window delivered d).1).0
        ≡ ok true
  short_window_counts_again scope id duration window d h =
      reply_record_if_new r l scope id duration window _
      ∙ rw (counted_after r l scope id duration window d h) refl
