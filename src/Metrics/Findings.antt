-- ===== src/Metrics/Findings.antt =====
-- The security-findings gauge of internal/metrics/metrics.go.
use scm_metrics_exporter.Prelude.{
  Bool, ◌&&◌, if◌then◌else◌, String, ◌≡◌, refl, sym, ap, List, [], ◌∷◌, ◌++◌, ◌==◌, nat_eq,
  string_eq, pair_eq, inl, inr, Bool-cases, ◌⊎◌, eq_of_beq,
}
use scm_metrics_exporter.Prelude.Assoc.{get, lookup}
use scm_metrics_exporter.Provider.{Finding}
use scm_metrics_exporter.Metrics.{Dimensions, FindingKey, optional, finding_attributes}

-- The value of an attribute, empty where it is left out.
abbrev pub label : String → List (String × String) → String
label name attributes = get "" name attributes

optional-cases : (n v : String) → ((v ≡ "") × (optional n v ≡ [])) ⊎ (optional n v ≡ (n, v) ∷ [])
optional-cases n v = elim (Bool-cases (v == "")) [
  | inl e ↦ inl (eq_of_beq v "" e, rw e refl)
  | inr e ↦ inr (rw e refl)
]

label-ecosystem :
    (e t : String) → label "ecosystem" (optional "ecosystem" e ++ optional "tool" t) ≡ e
unfolding lookup
label-ecosystem e t = elim (optional-cases "ecosystem" e) [
  | inr h ↦ rw h refl
  | inl (n, h) ↦
      rw h (elim (optional-cases "tool" t) [ inl (m, k) ↦ rw k (sym n) | inr k ↦ rw k (sym n) ])
]

label-tool : (e t : String) → label "tool" (optional "ecosystem" e ++ optional "tool" t) ≡ t
unfolding lookup
label-tool e t = elim (optional-cases "ecosystem" e) [
  | inr h ↦ rw h (after t)
  | inl (n, h) ↦ rw h (after t)
]
  where
    after : (t : String) → label "tool" (optional "tool" t) ≡ t
    after t = elim (optional-cases "tool" t) [ inl (m, k) ↦ rw k (sym m) | inr k ↦ rw k refl ]

-- Whether a finding has a severity, a category, an ecosystem and a tool. A dimension that is turned
-- off has no value.
abbrev pub carries : Dimensions → (severity category ecosystem tool : String) → Finding → Bool
carries dims severity category ecosystem tool f =
    f.severity == severity
    && (f.category == category
        && ((if dims.ecosystem then f.ecosystem == ecosystem else "" == ecosystem)
            && (if dims.tool then f.tool == tool else "" == tool)))

-- Two keys whose observations carry the same attributes are the same key, so that no value of the
-- gauge hides another.
pub finding_attributes-inj :
    (name repo : String) (j k : FindingKey)
    → finding_attributes name repo j ≡ finding_attributes name repo k
    → j ≡ k
unfolding finding_attributes lookup
finding_attributes-inj name repo (s, (c, (e, t))) (s', (c', (e', t'))) h =
    let read = λ (n : String). ap (label n) h in
    cc (
      read "severity",
      read "category",
      label-ecosystem e t,
      label-ecosystem e' t',
      label-tool e t,
      label-tool e' t',
      read "ecosystem",
      read "tool",
    )
