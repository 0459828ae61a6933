-- ===== src/GitLab/Resolutions.antt =====
-- What the resolved findings of a GitLab project (lifecycle.go) come to.
use mathlib.Core.List.{append_assoc, append-nil}
use scm_metrics_exporter.Prelude.{
  String, ◌≡◌, refl, sym, ◌∙◌, inl, inr, Bool, ◌&&◌, Option, none, some, List, [], ◌∷◌, ◌++◌,
  if◌then◌else◌, ◌==◌, string_eq, Bool-cases, Option-cases, arith, true, false, not, any, map,
  filter,
}
use scm_metrics_exporter.Prelude.Int.{ℤ, pos, ltb_ℤ}
use scm_metrics_exporter.Prelude.Assoc.{or_else}
use scm_metrics_exporter.Prelude.Errors.{Gives, guarded, failed, is_some}
use scm_metrics_exporter.Prelude.Text.{Unicode, to_lower, equal_fold}
use scm_metrics_exporter.Prelude.Text.Trim.{trim_space}
use scm_metrics_exporter.Provider.Severity.{normalize_severity}
use scm_metrics_exporter.Provider.{ResolvedFinding}
use scm_metrics_exporter.GitLab.{default_max_pages}
use scm_metrics_exporter.GitLab.Pages.{
  IgnoresPages, graphql_items, graphql_pages-result, graphql_fails, graphql_pages-error,
}
use scm_metrics_exporter.GitLab.Graphql.{
  Envelope, Posted, graphql_pages, category_of, parse_gitlab_time,
}
use scm_metrics_exporter.GitLab.Repo.{
  ResolvedVulnerability, recent_vulnerability, add_resolved, collect_resolved_findings,
  resolved_vulnerability, gitlab_resolved_at, gitlab_state, gitlab_resolution, first_date, deref,
}

-- A text that is no instant is the zero time.
abbrev instant : Option ℤ → ℤ
instant t = or_else (pos 0) t

-- When a node was settled: a resolved one at its resolution and otherwise at its dismissal, any other
-- one the other way round; at the zero time, if it has neither.
abbrev pub settled_at : Bool → (resolved_at dismissed_at : Option (Option ℤ)) → ℤ
settled_at true (some t) dismissed_at = instant t
settled_at true none (some t) = instant t
settled_at false resolved_at (some t) = instant t
settled_at false (some t) none = instant t
settled_at _ none none = pos 0

module _ ⦃u : Unicode⦄ where
  abbrev is_resolved : ResolvedVulnerability → Bool
  is_resolved n = equal_fold n.state "RESOLVED"

  abbrev settled : ResolvedVulnerability → ℤ
  settled n = settled_at (is_resolved n) n.resolved_at n.dismissed_at

  abbrev no_risk : String → Bool
  no_risk reason =
      let r = to_lower (trim_space reason) in
      any (λ x. r == x) ("false_positive" ∷ "used_in_tests" ∷ "not_applicable" ∷ [])

  -- The report type is counted, and the node was not settled before the window.
  abbrev pub wanted : ℤ → ResolvedVulnerability → Bool
  wanted since n = is_some (category_of n.report_type) && not (ltb_ℤ (settled n) since)

  -- The finding that stands for a node.
  abbrev pub finding_for : ResolvedVulnerability → ResolvedFinding
  finding_for n = record {
    id = n.id;
    category = or_else "" (category_of n.report_type);
    severity = normalize_severity n.severity;
    state = if is_resolved n then "resolved" else "dismissed";
    resolution =
        if is_resolved n
        then "fixed"
        else if no_risk (or_else "" n.dismissal_reason)
        then "dismissed_not_a_risk"
        else "dismissed_accepted_risk";
    created_at = instant n.detected_at;
    resolved_at = settled n;
  }

  -- The fields of the finding, as the program computes them.
  resolved_at-settled :
      (state : String) (r d : Option (Option ℤ))
      → gitlab_resolved_at state r d ≡ settled_at (equal_fold state "RESOLVED") r d
  unfolding gitlab_resolved_at
  resolved_at-settled state r d = go (equal_fold state "RESOLVED") r d
    where
      go :
          (b : Bool) (r d : Option (Option ℤ))
          → (if b then first_date r d else first_date d r) ≡ settled_at b r d
      go true (some (some t)) d = refl
      go true (some none) d = refl
      go true none (some (some t)) = refl
      go true none (some none) = refl
      go true none none = refl
      go false r (some (some t)) = refl
      go false r (some none) = refl
      go false (some (some t)) none = refl
      go false (some none) none = refl
      go false none none = refl

  resolution-risk :
      (state : String) (reason : Option String)
      → gitlab_resolution state (deref reason) ≡ (
          if equal_fold state "RESOLVED"
          then "fixed"
          else if no_risk (or_else "" reason)
          then "dismissed_not_a_risk"
          else "dismissed_accepted_risk")
  unfolding gitlab_resolution
  resolution-risk state none = ground arith
  resolution-risk state (some reason) = ground arith

  created_at-instant : (t : Option ℤ) → parse_gitlab_time t ≡ instant t
  created_at-instant none = refl
  created_at-instant (some t) = refl

  resolved_vulnerability-finding :
      (category : String) (n : ResolvedVulnerability)
      → resolved_vulnerability category n ≡ record (finding_for n) { category = category }
  unfolding resolved_vulnerability gitlab_state
  resolved_vulnerability-finding category n =
      rw
        (
          resolution-risk n.state n.dismissal_reason,
          created_at-instant n.detected_at,
          resolved_at-settled n.state n.resolved_at n.dismissed_at,
        )
        refl

  recent_vulnerability-wanted :
      (since : ℤ) (n : ResolvedVulnerability)
      → recent_vulnerability since n ≡ (if wanted since n then some (finding_for n) else none)
  unfolding recent_vulnerability
  recent_vulnerability-wanted since n = elim (Option-cases (category_of n.report_type)) [
    | inl e ↦ rw (e, recent_vulnerability) refl
    | inr (category, e) ↦
        rw (e, recent_vulnerability, resolved_vulnerability-finding category n)
          (kept_if (ltb_ℤ (settled n) since) _)
  ]
    where
      kept_if :
          (b : Bool) (f : ResolvedFinding)
          → (if b then none else some f) ≡ (if not b then some f else none)
      kept_if true f = refl
      kept_if false f = refl

  add_resolved-wanted :
      (since : ℤ) (out : List ResolvedFinding) (ns : List ResolvedVulnerability)
      → add_resolved since out ns ≡ out ++ map finding_for (filter (wanted since) ns)
  unfolding add_resolved
  add_resolved-wanted since out [] = sym (append-nil out)
  add_resolved-wanted since out (n ∷ ns) = elim (Bool-cases (wanted since n)) [
    | inr e ↦
        rw (recent_vulnerability-wanted since n, e, add_resolved) (add_resolved-wanted since out ns)
    | inl e ↦
        rw (recent_vulnerability-wanted since n, e, add_resolved)
          (add_resolved-wanted since (out ++ finding_for n ∷ []) ns
            ∙ append_assoc out (finding_for n ∷ []) _)
  ]

  add_resolved-append :
      (since : ℤ) (xs ys : List ResolvedVulnerability) (out : List ResolvedFinding)
      → add_resolved since (add_resolved since out xs) ys ≡ add_resolved since out (xs ++ ys)
  unfolding add_resolved
  add_resolved-append since [] ys out = refl
  add_resolved-append since (n ∷ ns) ys out = elim (Option-cases (recent_vulnerability since n)) [
    | inl e ↦ rw (e, add_resolved) (add_resolved-append since ns ys out)
    | inr (f, e) ↦ rw (e, add_resolved) (add_resolved-append since ns ys (out ++ f ∷ []))
  ]

  add_resolved-IgnoresPages : (since : ℤ) → IgnoresPages (add_resolved since)
  unfolding add_resolved
  add_resolved-IgnoresPages since = (λ out. refl, λ out xs ys. add_resolved-append since xs ys out)

  -- The collection of a project's resolved findings fails exactly if one of its first hundred pages
  -- fails, up to the last one. Otherwise it gives, in order, a finding for each node of those pages whose
  -- report type is counted and that was not settled before the window, with the node's category,
  -- normalized severity, state, resolution and times.
  pub collect_resolved_findings_lem :
      (since : ℤ) (query : Option String → Posted (Envelope ResolvedVulnerability))
      → (failed (collect_resolved_findings since query)
          ≡ graphql_fails query default_max_pages none)
        × Gives
            (λ fs.
              fs
              ≡ map finding_for
                  (filter (wanted since) (graphql_items query default_max_pages none)))
            (collect_resolved_findings since query)
  unfolding collect_resolved_findings
  collect_resolved_findings_lem since query =
      let s = graphql_pages (add_resolved since) none query default_max_pages none [] none in
      let (fails, gives) = guarded _ s.error s.result (
        graphql_pages-result (add_resolved since) none query default_max_pages none [] none
          (add_resolved-IgnoresPages since)
        ∙ add_resolved-wanted since [] (graphql_items query default_max_pages none)) in
      (fails ∙ graphql_pages-error (add_resolved since) query default_max_pages none [] none, gives)
