-- ===== src/GitHub/Recent.antt =====
-- The window of the resolved alerts.
use scm_metrics_exporter.Prelude.{
  ℕ, zero, suc, String, inl, inr, Bool, true, false, List, [], ◌∷◌, ◌++◌, All, All-append,
  Bool-cases, Option-cases, arith,
}
use scm_metrics_exporter.Prelude.Int.{ℤ, ltb_ℤ, ◌≤ℤ◌}
use scm_metrics_exporter.Prelude.Errors.{Result, ok, err, Gives, Result-cases, ◌>>=◌}
use scm_metrics_exporter.Prelude.Text.{Unicode}
use scm_metrics_exporter.Provider.{ResolvedFinding}
use scm_metrics_exporter.GitHub.{
  Reply, Alert, SecretAlert, following, not_accessible, default_max_pages,
}
use scm_metrics_exporter.GitHub.Resolved.{
  DependabotAlert, resolved_page, resolved_pages, resolved_states, resolved_code_scanning,
  resolved_secret_scanning, resolved_dependabot, resolved_code_alert, resolved_secret_alert,
  resolved_dependabot_alert, collect_resolved_findings,
}

-- None of the findings was resolved before an instant.
abbrev pub IsRecent : ℤ → List ResolvedFinding → Type 0
IsRecent since fs = All (λ f. since ≤ℤ f.resolved_at) fs

module _ {A : Type 0} (convert : A → ResolvedFinding) (since : ℤ) where
  resolved_page-IsRecent :
      (items : List A) (out : List ResolvedFinding)
      → IsRecent since out
      → IsRecent since (resolved_page convert since items out)
  unfolding resolved_page
  resolved_page-IsRecent [] out h = h
  resolved_page-IsRecent (a ∷ items) out h =
      elim (Bool-cases (ltb_ℤ (convert a).resolved_at since)) [
        | inl e ↦ rw e (resolved_page-IsRecent items out h)
        | inr e ↦ rw e (
            resolved_page-IsRecent items (out ++ convert a ∷ [])
              (All-append (λ f. since ≤ℤ f.resolved_at) out (convert a ∷ []) h (ground arith, tt)))
      ]

  resolved_pages-IsRecent :
      (page : ℕ → Reply A) (fuel current : ℕ) (out : List ResolvedFinding)
      → IsRecent since out
      → Gives (λ p. IsRecent since p.0) (resolved_pages convert since page fuel current out)
  unfolding resolved_pages
  resolved_pages-IsRecent page zero current out h = h
  resolved_pages-IsRecent page (suc fuel) current out h = elim (Result-cases (page current).items) [
    | inr (e, failed) ↦
        rw (failed, Gives)
          (elim (Bool-cases (not_accessible e)) [
            | inl gone ↦ rw (gone, Gives) h
            | inr hard ↦ rw (hard, Gives) tt
          ])
    | inl (items, read) ↦
        let h = resolved_page-IsRecent items out h in
        rw (read, Gives)
          (elim (Option-cases (following (page current).reply)) [
            | inl last ↦ rw (last, Gives) h
            | inr (next, more) ↦ rw (more, Gives) (resolved_pages-IsRecent page fuel next _ h)
          ])
  ]

resolved_states-IsRecent :
    {A : Type 0} (convert : String → A → ResolvedFinding) (since : ℤ) (page : String → ℕ → Reply A)
    (states : List String) (out : List ResolvedFinding)
    → IsRecent since out
    → Gives (IsRecent since) (resolved_states convert since page states out)
unfolding resolved_states
resolved_states-IsRecent convert since page [] out h = h
resolved_states-IsRecent convert since page (state ∷ states) out h =
    after (resolved_pages (convert state) since (page state) default_max_pages 0 out)
      (resolved_pages-IsRecent (convert state) since (page state) default_max_pages 0 out h)
      (resolved_states-IsRecent convert since page states)
  where
    after :
        (r : Result (List ResolvedFinding × Bool))
        → Gives (λ p. IsRecent since p.0) r
        → ((fs : List ResolvedFinding)
            → IsRecent since fs
            → Gives (IsRecent since) (resolved_states convert since page states fs))
        → Gives (IsRecent since) (elim r [
          | err e ↦ err e
          | ok (fs, true) ↦ ok fs
          | ok (fs, false) ↦ resolved_states convert since page states fs
        ])
    after (err e) g k = tt
    after (ok (fs, true)) g k = g
    after (ok (fs, false)) g k = k fs g

joined-IsRecent :
    (since : ℤ) (a b c : Result (List ResolvedFinding))
    → Gives (IsRecent since) a
    → Gives (IsRecent since) b
    → Gives (IsRecent since) c
    → Gives (IsRecent since) (do xs ← a; ys ← b; zs ← c; ok (xs ++ (ys ++ zs)))
joined-IsRecent since (ok xs) (ok ys) (ok zs) g h k =
    All-append _ xs (ys ++ zs) g (All-append _ ys zs h k)
joined-IsRecent since (err e) b c g h k = tt
joined-IsRecent since (ok xs) (err e) c g h k = tt
joined-IsRecent since (ok xs) (ok ys) (err e) g h k = tt

module _ ⦃u : Unicode⦄ where
  -- If the resolved alerts of a repository are collected, none of them was resolved before the
  -- window, whatever the API answers.
  pub collect_resolved_findings-IsRecent :
      (since : ℤ) (code : String → ℕ → Reply Alert) (secret : ℕ → Reply SecretAlert)
      (dependabot : String → ℕ → Reply DependabotAlert)
      → Gives (IsRecent since) (collect_resolved_findings since code secret dependabot)
  unfolding collect_resolved_findings resolved_code_scanning resolved_secret_scanning
      resolved_dependabot
  collect_resolved_findings-IsRecent since code secret dependabot =
      joined-IsRecent since (resolved_code_scanning since code)
        (resolved_secret_scanning since secret) (resolved_dependabot since dependabot)
        (resolved_states-IsRecent resolved_code_alert since code ("fixed" ∷ "dismissed" ∷ []) [] tt)
        (resolved_states-IsRecent (λ _. resolved_secret_alert) since (λ _. secret) ("resolved" ∷ [])
          [] tt)
        (resolved_states-IsRecent resolved_dependabot_alert since dependabot
          ("fixed" ∷ "dismissed" ∷ "auto_dismissed" ∷ []) [] tt)
