-- ===== src/GitHub/Resolved.antt =====
-- internal/provider/github/lifecycle.go: the alerts that were resolved within the window.
use Prim.Native.String
use scm_metrics_exporter.Prelude.{
  ℕ, zero, suc, String, Bool, true, false, ◌||◌, Option, none, some, List, [], ◌∷◌, ◌++◌,
  if◌then◌else◌, ◌==◌, string_eq,
}
use scm_metrics_exporter.Prelude.Int.{ℤ, ltb_ℤ, is_zero}
use scm_metrics_exporter.Prelude.Errors.{Result, ok, err, ◌>>=◌}
use scm_metrics_exporter.Prelude.Text.{Unicode, to_lower}
use scm_metrics_exporter.Prelude.Text.Trim.{trim_space}
use scm_metrics_exporter.Prelude.Text.Decimal.{format_int}
use scm_metrics_exporter.Provider.{
  ResolvedFinding, category_static_analysis, category_secret, category_dependency, severity_unknown,
  state_fixed, state_dismissed, state_auto_dismissed, state_resolved, resolution_fixed,
  resolution_dismissed_not_a_risk, resolution_dismissed_accepted_risk,
}
use scm_metrics_exporter.Provider.Severity.{normalize_severity}
use scm_metrics_exporter.GitHub.{
  Reply, Alert, SecretAlert, following, not_accessible, code_scanning_severity, default_max_pages,
}

-- A Dependabot alert. An instant that is absent is the zero time.
pub record DependabotAlert : Type 0 where
  pub number : ℤ
  pub advisory_severity : Option String
  pub created_at : ℤ
  pub fixed_at : ℤ
  pub auto_dismissed_at : ℤ
  pub dismissed_at : ℤ
  pub dismissed_reason : String

unfoldable pub code_scanning_resolved_at : Alert → ℤ
unfolding is_zero
code_scanning_resolved_at a = if is_zero a.fixed_at then a.dismissed_at else a.fixed_at

unfoldable pub dependabot_resolved_at : DependabotAlert → ℤ
unfolding is_zero
dependabot_resolved_at a =
    if is_zero a.fixed_at
    then (if is_zero a.auto_dismissed_at then a.dismissed_at else a.auto_dismissed_at)
    else a.fixed_at

abbrev dependabot_severity : Option String → String
dependabot_severity none = ""
dependabot_severity (some s) = s

unfoldable pub lifecycle_state : String → String
lifecycle_state state =
    if state == "fixed"
    then state_fixed
    else if state == "auto_dismissed"
    then state_auto_dismissed
    else if state == "dismissed"
    then state_dismissed
    else state_resolved

-- Where a listing of one state leaves the collection: with its alerts, and whether the feature is
-- not accessible, which ends the collection.
abbrev Progress : Type 0
Progress = List ResolvedFinding × Bool

module _ {A : Type 0} (convert : A → ResolvedFinding) (since : ℤ) where
  -- The alerts of a page that were not resolved before `since`.
  unfoldable pub resolved_page : List A → List ResolvedFinding → List ResolvedFinding
  resolved_page [] out = out
  resolved_page (a ∷ items) out =
      let skip = resolved_page items out in
      let take = resolved_page items (out ++ convert a ∷ []) in
      if ltb_ℤ (convert a).resolved_at since then skip else take

  -- The loop over the pages, of which at most `fuel` are read.
  unfoldable pub resolved_pages :
      (ℕ → Reply A) → (fuel current : ℕ) → List ResolvedFinding → Result Progress
  unfolding resolved_page
  resolved_pages page zero current out = ok (out, false)
  resolved_pages page (suc fuel) current out = elim (page current).items [
    | err e ↦ if not_accessible e then ok (out, true) else err e
    | ok items ↦
        let out = resolved_page items out in
        elim (following (page current).reply) [
          | none ↦ ok (out, false)
          | some next ↦ resolved_pages page fuel next out
        ]
  ]

-- The loop over the states.
unfoldable pub resolved_states :
    {A : Type 0}
    → (String → A → ResolvedFinding)
    → ℤ
    → (String → ℕ → Reply A)
    → List String
    → List ResolvedFinding
    → Result (List ResolvedFinding)
resolved_states convert since page [] out = ok out
resolved_states convert since page (state ∷ states) out =
    elim (resolved_pages (convert state) since (page state) default_max_pages 0 out) [
      | err e ↦ err e
      | ok (out, true) ↦ ok out
      | ok (out, false) ↦ resolved_states convert since page states out
    ]

module _ ⦃u : Unicode⦄ where
  unfoldable pub code_scanning_resolution : (state reason : String) → String
  code_scanning_resolution state reason =
      let r = to_lower (trim_space reason) in
      if state == "fixed"
      then resolution_fixed
      else if r == "false positive" || r == "used in tests"
      then resolution_dismissed_not_a_risk
      else resolution_dismissed_accepted_risk

  unfoldable pub secret_scanning_resolution : String → String
  secret_scanning_resolution reason =
      let r = to_lower (trim_space reason) in
      if r == "revoked"
      then resolution_fixed
      else if r == "false_positive" || (r == "used_in_tests" || r == "pattern_deleted")
      then resolution_dismissed_not_a_risk
      else resolution_dismissed_accepted_risk

  unfoldable pub dependabot_resolution : (state reason : String) → String
  dependabot_resolution state reason =
      let r = to_lower (trim_space reason) in
      if state == "fixed"
      then resolution_fixed
      else if r == "inaccurate" || r == "not_used"
      then resolution_dismissed_not_a_risk
      else resolution_dismissed_accepted_risk

  unfoldable pub resolved_code_alert : String → Alert → ResolvedFinding
  unfolding code_scanning_severity
  resolved_code_alert state a = record {
    id = String.◌++◌ "cs-" (format_int a.number);
    category = category_static_analysis;
    severity = normalize_severity (code_scanning_severity a.rule);
    state = lifecycle_state state;
    resolution = code_scanning_resolution state a.dismissed_reason;
    created_at = a.created_at;
    resolved_at = code_scanning_resolved_at a;
  }

  unfoldable pub resolved_secret_alert : SecretAlert → ResolvedFinding
  resolved_secret_alert a = record {
    id = String.◌++◌ "ss-" (format_int a.number);
    category = category_secret;
    severity = severity_unknown;
    state = state_resolved;
    resolution = secret_scanning_resolution a.resolution;
    created_at = a.created_at;
    resolved_at = a.resolved_at;
  }

  unfoldable pub resolved_dependabot_alert : String → DependabotAlert → ResolvedFinding
  resolved_dependabot_alert state a = record {
    id = String.◌++◌ "da-" (format_int a.number);
    category = category_dependency;
    severity = normalize_severity (dependabot_severity a.advisory_severity);
    state = lifecycle_state state;
    resolution = dependabot_resolution state a.dismissed_reason;
    created_at = a.created_at;
    resolved_at = dependabot_resolved_at a;
  }

  unfoldable pub resolved_code_scanning :
      (since : ℤ) → (String → ℕ → Reply Alert) → Result (List ResolvedFinding)
  unfolding resolved_states
  resolved_code_scanning since page =
      resolved_states resolved_code_alert since page ("fixed" ∷ "dismissed" ∷ []) []

  unfoldable pub resolved_secret_scanning :
      (since : ℤ) → (ℕ → Reply SecretAlert) → Result (List ResolvedFinding)
  unfolding resolved_states
  resolved_secret_scanning since page =
      resolved_states (λ _. resolved_secret_alert) since (λ _. page) ("resolved" ∷ []) []

  unfoldable pub resolved_dependabot :
      (since : ℤ) → (String → ℕ → Reply DependabotAlert) → Result (List ResolvedFinding)
  unfolding resolved_states
  resolved_dependabot since page =
      resolved_states resolved_dependabot_alert since page
        ("fixed" ∷ "dismissed" ∷ "auto_dismissed" ∷ []) []

  -- The three listings, of which the first error is returned.
  unfoldable pub collect_resolved_findings :
      (since : ℤ)
      → (String → ℕ → Reply Alert)
      → (ℕ → Reply SecretAlert)
      → (String → ℕ → Reply DependabotAlert)
      → Result (List ResolvedFinding)
  collect_resolved_findings since code secret dependabot = do
    cs ← resolved_code_scanning since code
    ss ← resolved_secret_scanning since secret
    da ← resolved_dependabot since dependabot
    ok (cs ++ (ss ++ da))
