-- ===== src/Discovery/Budgets.antt =====
-- The API budgets of internal/discovery/ratelimit.go and internal/discovery/gitlab.go.
use scm_metrics_exporter.Prelude.{
  ◌≡◌, refl, true, ◌||◌, Option, none, some, inl, inr, ◌⊎◌, Bool-cases, arith,
}
use scm_metrics_exporter.Prelude.Int.{ltb_ℤ, ◌≤ℤ◌}
use scm_metrics_exporter.Prelude.Errors.{ok, is_some}
use scm_metrics_exporter.Discovery.{Budget, Rate, tighter, no_budget, github_rate_budget}

-- A budget that is at most what a bucket has, if there is that bucket.
abbrev pub AtMost : Budget → Option Rate → Type 0
AtMost b none = Unit
AtMost b (some r) = b.remaining ≤ℤ r.remaining

-- A budget that is one of the buckets', with its reset time, or no budget if there is none.
abbrev pub IsOneOf : Budget → Option Rate → Option Rate → Type 0
IsOneOf b none none = b ≡ no_budget
IsOneOf b (some r) none = (b.remaining ≡ r.remaining) × (b.reset ≡ r.reset)
IsOneOf b none (some r) = (b.remaining ≡ r.remaining) × (b.reset ≡ r.reset)
IsOneOf b (some r) (some q) =
    ((b.remaining ≡ r.remaining) × (b.reset ≡ r.reset))
    ⊎ ((b.remaining ≡ q.remaining) × (b.reset ≡ q.reset))

-- The GitHub budget is known exactly if the answer has one of the REST and GraphQL buckets, is at
-- most what either has left, and is one of them with its own reset time.
pub github_rate_budget_lem :
    (core graphql : Option Rate)
    → (b : Budget) × (github_rate_budget (ok (core, graphql)) ≡ ok b)
      × (b.known ≡ (is_some core || is_some graphql))
      × AtMost b core
      × AtMost b graphql
      × IsOneOf b core graphql
unfolding github_rate_budget tighter
github_rate_budget_lem none none = (no_budget, refl, refl, tt, tt, refl)
github_rate_budget_lem (some r) none = (_, refl, refl, omega arith, tt, (refl, refl))
github_rate_budget_lem none (some q) = (_, refl, refl, tt, omega arith, (refl, refl))
github_rate_budget_lem (some r) (some q) = elim (Bool-cases (ltb_ℤ q.remaining r.remaining)) [
  | inl e ↦ (
    record { remaining = q.remaining; reset = q.reset; known = true },
    rw e refl,
    refl,
    ground arith,
    omega arith,
    inr (refl, refl),
  )
  | inr e ↦ (
    record { remaining = r.remaining; reset = r.reset; known = true },
    rw e refl,
    refl,
    omega arith,
    ground arith,
    inl (refl, refl),
  )
]
