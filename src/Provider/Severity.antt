-- ===== src/Provider/Severity.antt =====
-- `NormalizeSeverity` of internal/provider/provider.go.
use scm_metrics_exporter.Prelude.{String, ◌≡◌, ◌≢◌, refl, ap, ◌||◌, arith, inl, inr, ◌⊎◌}
use scm_metrics_exporter.Prelude.{if◌then◌else◌, ◌==◌, string_eq}
use text.Mathlib.TextEquality.{eq_iff}
use scm_metrics_exporter.Prelude.Text.{Unicode, IsCaseTable, to_lower, lower_rune, is_space}
use scm_metrics_exporter.Prelude.Text.Trim.{
  trim_space, trim_left, trim_right, to_lower_idem, trim_space-to_lower, trim_space_idem,
}
use scm_metrics_exporter.Provider.{severity_critical, severity_high, severity_medium, severity_low}

-- The `switch`, on a severity that is trimmed and in lower case.
unfoldable pub canonical_severity : String → String
canonical_severity v =
    if v == severity_critical
    then severity_critical
    else if v == severity_high
    then severity_high
    else if v == severity_medium || v == "moderate"
    then severity_medium
    else if v == severity_low
    then severity_low
    else v

-- The `switch` returns its argument, or "medium" for "moderate".
canonical_severity_cases :
    (v : String) → (canonical_severity v ≡ v) ⊎ (canonical_severity v ≡ severity_medium)
unfolding canonical_severity
canonical_severity_cases v = ground (
  arith,
  eq_iff v severity_critical,
  eq_iff v severity_high,
  eq_iff v severity_medium,
  eq_iff v severity_low,
)

canonical-ne-moderate : (v : String) → canonical_severity v ≢ "moderate"
unfolding canonical_severity
canonical-ne-moderate v = ground (
  arith,
  eq_iff v "moderate",
  eq_iff severity_critical "moderate",
  eq_iff severity_high "moderate",
  eq_iff severity_medium "moderate",
  eq_iff severity_low "moderate",
)

canonical_severity_idem :
    (v : String) → canonical_severity (canonical_severity v) ≡ canonical_severity v
canonical_severity_idem v = elim (canonical_severity_cases v) [
  | inl e ↦ ap canonical_severity e
  | inr e ↦ rw e (unfold canonical_severity in refl)
]

module _ ⦃u : Unicode⦄ where
  unfoldable pub normalize_severity : String → String
  normalize_severity s = canonical_severity (to_lower (trim_space s))

  -- A text that is trimmed and in lower case.
  abbrev pub IsNormal : String → Type 0
  IsNormal s = to_lower (trim_space s) ≡ s

  lower-trim-IsNormal : IsCaseTable → (s : String) → IsNormal (to_lower (trim_space s))
  lower-trim-IsNormal t s =
      rw (trim_space-to_lower t (trim_space s))
        (rw trim_space_idem (to_lower_idem t (trim_space s)))

  medium-IsNormal : IsNormal severity_medium
  unfolding to_lower trim_space trim_left trim_right lower_rune is_space
  medium-IsNormal = refl

  canonical-IsNormal : (v : String) → IsNormal v → IsNormal (canonical_severity v)
  canonical-IsNormal v h = elim (canonical_severity_cases v) [
    | inl e ↦ rw e h
    | inr e ↦ rw e medium-IsNormal
  ]

  -- The severity of a provider is put in a normal form: in lower case, without white space around
  -- it, never GitHub's "moderate", and left as it is by a second call. Only the text in lower case
  -- counts. The Unicode tables are assumed to treat white space and lower case consistently.
  pub normalize_severity-IsNormal :
      IsCaseTable
      → (s : String)
      → IsNormal (normalize_severity s)
        × (normalize_severity s ≢ "moderate")
        × (normalize_severity (normalize_severity s) ≡ normalize_severity s)
        × (normalize_severity (to_lower s) ≡ normalize_severity s)
  unfolding normalize_severity
  normalize_severity-IsNormal t s =
      let v = to_lower (trim_space s) in
      let n : IsNormal (canonical_severity v) = canonical-IsNormal v (lower-trim-IsNormal t s) in
      (
        n,
        canonical-ne-moderate v,
        rw n (canonical_severity_idem v),
        ap canonical_severity (rw (trim_space-to_lower t s) (to_lower_idem t (trim_space s))),
      )
