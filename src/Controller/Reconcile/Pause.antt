-- ===== src/Controller/Reconcile/Pause.antt =====
-- How long a pass of internal/controller pauses for a rate limit.
use scm_metrics_exporter.Prelude.{◌≡◌, refl, Bool, false, if◌then◌else◌, string_eq, arith}
use scm_metrics_exporter.Prelude.Int.{
  ℤ, ◌≤ℤ◌, ◌+ℤ◌, ltb_ℤ, sub_time, saturate, max_int64, min_int64, int_laws, ◌-ℤ◌,
}
use scm_metrics_exporter.Controller.Common.{
  rate_limit_requeue, pending_requeue, rate_limit_buffer, wrap_int64,
}

saturate-min : (d : ℤ) → min_int64 ≤ℤ saturate d
unfolding saturate
saturate-min d = ground arith

add_buffer : (d : ℤ) → min_int64 ≤ℤ d → min_int64 ≤ℤ d +ℤ rate_limit_buffer
add_buffer d h = omega int_laws

wrap_id : (d : ℤ) → min_int64 ≤ℤ d → d ≤ℤ max_int64 → wrap_int64 d ≡ d
unfolding wrap_int64
wrap_id d h k =
    rw (no (ltb_ℤ max_int64 d) (ground arith), no (ltb_ℤ d min_int64) (ground arith)) refl
  where
    no : (b : Bool) → b ≡ false → b ≡ false
    no b h = h

floored :
    (d : ℤ)
    → min_int64 ≤ℤ d
    → d ≤ℤ max_int64
    → let e = wrap_int64 d in
      let q = if ltb_ℤ e pending_requeue then pending_requeue else e in
      (pending_requeue ≤ℤ q) × (d ≤ℤ q)
unfolding wrap_int64
floored d h k = rw (wrap_id d h k) (floor d)
  where
    floor :
        (e : ℤ)
        → let q = if ltb_ℤ e pending_requeue then pending_requeue else e in
          (pending_requeue ≤ℤ q) × (e ≤ℤ q)
    floor e = ground arith

-- A pause lasts at least thirty seconds, whatever the reset time, and at least until fifteen seconds
-- after the reset, if that is not too far ahead for a duration.
pub rate_limit_requeue_lem :
    (now reset : ℤ)
    → sub_time reset now +ℤ rate_limit_buffer ≤ℤ max_int64
    → (pending_requeue ≤ℤ rate_limit_requeue now reset)
      × (sub_time reset now +ℤ rate_limit_buffer ≤ℤ rate_limit_requeue now reset)
unfolding rate_limit_requeue
rate_limit_requeue_lem now reset h =
    floored (sub_time reset now +ℤ rate_limit_buffer)
      (add_buffer (sub_time reset now) (unfold sub_time in saturate-min (reset -ℤ now))) h

-- A pause is never shorter than thirty seconds.
pub requeue-min : (now reset : ℤ) → pending_requeue ≤ℤ rate_limit_requeue now reset
unfolding rate_limit_requeue
requeue-min now reset = ground arith
