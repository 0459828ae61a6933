-- ===== src/GitHub/Owner/Whole.antt =====
-- The snapshot of an organization, from the answers of the APIs.
use mathlib.Core.List.{Perm, append-nil}
use scm_metrics_exporter.Prelude.{
  String, ◌≡◌, refl, subst, ◌∙◌, false, ◌&&◌, Option, none, some, List, [], ◌∷◌, ◌++◌, ◌==◌,
  string_eq,
}
use scm_metrics_exporter.Prelude.Errors.{Error, failed, is_some, Gives, Gives-map, guarded}
use scm_metrics_exporter.Prelude.Text.{Unicode}
use scm_metrics_exporter.Provider.{Finding, source_graphql, source_rest, source_secret_scanning}
use scm_metrics_exporter.Provider.Merge.{row_of, findings_of}
use scm_metrics_exporter.GitHub.{code_scanning_finding, secret_finding, default_max_pages}
use scm_metrics_exporter.Provider.Merge.Findings.{under_map}
use scm_metrics_exporter.GitHub.Merge.{under_repos, merge_repos_lem}
use scm_metrics_exporter.Provider.Sources.{source_error}
use scm_metrics_exporter.GitHub.Owner.{
  collect_graphql, collect_code_scanning_for_org, collect_secret_scanning_for_org,
}
use scm_metrics_exporter.GitHub.Owner.Poll.{
  OwnerAnswers, every_failed, owner_snapshot, collect_code_scanning, collect_secret_scanning,
  snapshot,
}
use scm_metrics_exporter.GitHub.Owner.Failures.{
  query_fails, repos_read, code_fails, secret_fails, collect_graphql_lem, code_scanning-fails,
  secret_scanning-fails,
}
use scm_metrics_exporter.GitHub.Owner.Pages.{of_repo, pages_read, org_pages-under}

every_failed-is_some :
    (gql cs ss : Option Error)
    → is_some (every_failed gql cs ss) ≡ (is_some gql && (is_some cs && is_some ss))
every_failed-is_some (some e) (some f) (some g) = refl
every_failed-is_some none cs ss = refl
every_failed-is_some (some e) none ss = refl
every_failed-is_some (some e) (some f) none = refl

module _ ⦃u : Unicode⦄ (target_type : String) (answers : OwnerAnswers) where
  collected_lem :
      let gql = collect_graphql answers.graphql in
      let cs = collect_code_scanning target_type answers in
      let ss = collect_secret_scanning target_type answers in
      (failed (snapshot target_type answers)
        ≡ (is_some gql.error && (is_some cs.error && is_some ss.error)))
      × Gives
          (λ s.
            (s.source_errors
              ≡ source_error (is_some gql.error) source_graphql
                ++ (source_error (is_some cs.error) source_rest
                    ++ source_error (is_some ss.error) source_secret_scanning))
            × ((n : String)
                → Perm (findings_of (row_of n s.repos)) (
                    under_repos n gql.repos
                    ++ (under_map n cs.findings ++ (under_map n ss.findings ++ [])))))
          (snapshot target_type answers)
  unfolding snapshot owner_snapshot
  collected_lem =
      let gql = collect_graphql answers.graphql in
      let cs = collect_code_scanning target_type answers in
      let ss = collect_secret_scanning target_type answers in
      let (fails, gives) =
        guarded _ (every_failed gql.error cs.error ss.error) _
          (refl, λ n. (merge_repos_lem gql.repos (cs.findings ∷ ss.findings ∷ []) n).3) in
      (fails ∙ every_failed-is_some gql.error cs.error ss.error, gives)

  -- Collecting an owner fails exactly if the GraphQL query, code scanning and secret scanning all
  -- fail: the query at a page that fails or has errors, and the two of an organization at a page of
  -- their listing that fails. Otherwise the snapshot reports exactly those of them that failed, and
  -- has under each name exactly the findings of the GraphQL repositories of that name on the pages
  -- before a failing one and those that the two scans returned, failed or not, each as often as they
  -- did.
  pub snapshot_lem :
      let gql = query_fails answers.graphql default_max_pages none in
      let cs = code_fails target_type answers in
      let ss = secret_fails target_type answers in
      (failed (snapshot target_type answers) ≡ (gql && (cs && ss)))
      × Gives
          (λ s.
            (s.source_errors
              ≡ source_error gql source_graphql
                ++ (source_error cs source_rest ++ source_error ss source_secret_scanning))
            × ((n : String)
                → Perm (findings_of (row_of n s.repos)) (
                    under_repos n (repos_read answers.graphql default_max_pages none)
                    ++ (under_map n (collect_code_scanning target_type answers).findings
                        ++ (under_map n (collect_secret_scanning target_type answers).findings
                            ++ [])))))
          (snapshot target_type answers)
  snapshot_lem =
      let (read, fails) = collect_graphql_lem answers.graphql in
      rw⁻¹
        (
          read,
          fails,
          code_scanning-fails target_type answers,
          secret_scanning-fails target_type answers,
        )
        collected_lem

  code-under :
      (n : String)
      → (target_type == "user") ≡ false
      → (n == "") ≡ false
      → under_map n (collect_code_scanning target_type answers).findings
        ≡ of_repo code_scanning_finding n (pages_read answers.org_code default_max_pages 0)
  unfolding collect_code_scanning collect_code_scanning_for_org
  code-under n org h =
      rw org (org_pages-under code_scanning_finding answers.org_code default_max_pages n h)

  secret-under :
      (n : String)
      → (target_type == "user") ≡ false
      → (n == "") ≡ false
      → under_map n (collect_secret_scanning target_type answers).findings
        ≡ of_repo secret_finding n (pages_read answers.org_secret default_max_pages 0)
  unfolding collect_secret_scanning collect_secret_scanning_for_org
  secret-under n org h =
      rw org (org_pages-under secret_finding answers.org_secret default_max_pages n h)

  -- The snapshot of an organization has under a name exactly the findings of the GraphQL
  -- repositories of that name and of the alerts of that repository on the pages that were read,
  -- each as often as it was listed.
  pub snapshot_of_org :
      (n : String)
      → (target_type == "user") ≡ false
      → (n == "") ≡ false
      → Gives
          (λ s. Perm (findings_of (row_of n s.repos)) (
            under_repos n (collect_graphql answers.graphql).repos
            ++ (of_repo code_scanning_finding n (pages_read answers.org_code default_max_pages 0)
                ++ of_repo secret_finding n (pages_read answers.org_secret default_max_pages 0))))
          (snapshot target_type answers)
  snapshot_of_org n org h =
      Gives-map _ _ (λ s (_, all). subst (Perm (findings_of (row_of n s.repos))) reported (all n))
        (snapshot target_type answers) collected_lem.1
    where
      code : List Finding
      code = under_map n (collect_code_scanning target_type answers).findings

      secret : List Finding
      secret = under_map n (collect_secret_scanning target_type answers).findings

      reported :
          under_repos n (collect_graphql answers.graphql).repos ++ (code ++ (secret ++ []))
          ≡ under_repos n (collect_graphql answers.graphql).repos
            ++ (of_repo code_scanning_finding n (pages_read answers.org_code default_max_pages 0)
                ++ of_repo secret_finding n (pages_read answers.org_secret default_max_pages 0))
      reported = rw (append-nil secret, code-under n org h, secret-under n org h) refl
