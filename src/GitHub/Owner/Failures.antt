-- ===== src/GitHub/Owner/Failures.antt =====
-- Which pages of an owner's queries and listings are read, and which of them fail.
use mathlib.Core.List.{append_assoc, append-nil}
use scm_metrics_exporter.Prelude.{
  ℕ, zero, suc, String, Bool, ◌≡◌, refl, sym, ◌∙◌, inl, inr, true, false, Option, none, some, List,
  [], ◌++◌, map, is_empty, if◌then◌else◌, ◌==◌, string_eq, Bool-cases, Option-cases,
}
use scm_metrics_exporter.Prelude.Int.{ℤ}
use scm_metrics_exporter.Prelude.Assoc.{Map}
use scm_metrics_exporter.Prelude.Errors.{Result, ok, err, Result-cases, is_some}
use scm_metrics_exporter.Prelude.Text.{Unicode}
use scm_metrics_exporter.Provider.{Finding}
use scm_metrics_exporter.GitHub.{
  Reply, following, default_max_pages, code_scanning_finding, secret_finding,
}
use scm_metrics_exporter.GitHub.Repo.{GraphqlRepo, map_repo_node}
use scm_metrics_exporter.GitHub.Owner.{
  Owned, OwnerPage, org_pages, graphql_pages, collect_graphql, collect_code_scanning_for_org,
  collect_code_scanning_for_user, collect_secret_scanning_for_org, collect_secret_scanning_for_user,
}
use scm_metrics_exporter.GitHub.Owner.Poll.{
  OwnerAnswers, collect_code_scanning, collect_secret_scanning,
}

-- A listing fails at the first page that fails, if the pages before it lead there.
abbrev fails_after : {A : Type 0} → Result A → Option ℕ → (ℕ → Bool) → Bool
fails_after (err e) next rest = true
fails_after (ok x) none rest = false
fails_after (ok x) (some n) rest = rest n

unfoldable pub listing_fails : {A : Type 0} → (ℕ → Reply A) → (fuel current : ℕ) → Bool
listing_fails page zero current = false
listing_fails page (suc fuel) current =
    fails_after (page current).items (following (page current).reply) (listing_fails page fuel)

org_pages-fails :
    {A : Type 0} (finding : A → Finding) (page : ℕ → Reply (Owned A)) (fuel current : ℕ)
    (m : Map String (List Finding)) (rate : Option ℤ)
    → is_some (org_pages finding page fuel current m rate).error ≡ listing_fails page fuel current
unfolding org_pages listing_fails
org_pages-fails finding page zero current m rate = refl
org_pages-fails finding page (suc fuel) current m rate = elim (Result-cases (page current).items) [
  | inr (e, failed) ↦ rw (failed, org_pages) refl
  | inl (alerts, read) ↦
      rw (read, org_pages)
        (elim (Option-cases (following (page current).reply)) [
          | inl last ↦ rw (last, org_pages) refl
          | inr (next, more) ↦ rw (more, org_pages) (org_pages-fails finding page fuel next _ _)
        ])
]

abbrev query_after : Result OwnerPage → (Option String → Bool) → Bool
query_after (err e) rest = true
query_after (ok p) rest =
    if is_empty p.errors
    then (if p.has_next_page then rest (some p.end_cursor) else false)
    else true

unfoldable pub query_fails : (Option String → Result OwnerPage) → (fuel : ℕ) → Option String → Bool
query_fails query zero cursor = false
query_fails query (suc fuel) cursor = query_after (query cursor) (query_fails query fuel)

module _ ⦃u : Unicode⦄ where
  -- The repositories on the pages of the GraphQL query before the first that fails, in order. A page
  -- with errors fails.
  abbrev rows_after : Result OwnerPage → (Option String → List GraphqlRepo) → List GraphqlRepo
  rows_after (err e) rest = []
  rows_after (ok p) rest =
      if is_empty p.errors
      then map map_repo_node p.nodes ++ (if p.has_next_page then rest (some p.end_cursor) else [])
      else []

  unfoldable pub repos_read :
      (Option String → Result OwnerPage) → (fuel : ℕ) → Option String → List GraphqlRepo
  repos_read query zero cursor = []
  repos_read query (suc fuel) cursor = rows_after (query cursor) (repos_read query fuel)

  graphql_pages_lem :
      (query : Option String → Result OwnerPage) (fuel : ℕ) (cursor : Option String)
      (repos : List GraphqlRepo) (rate : Option ℤ)
      → ((graphql_pages query fuel cursor repos rate).repos ≡ repos ++ repos_read query fuel cursor)
        × (is_some (graphql_pages query fuel cursor repos rate).error
            ≡ query_fails query fuel cursor)
  unfolding graphql_pages repos_read query_fails
  graphql_pages_lem query zero cursor repos rate = (sym (append-nil repos), refl)
  graphql_pages_lem query (suc fuel) cursor repos rate = elim (Result-cases (query cursor)) [
    | inr (e, failed) ↦ rw (failed, graphql_pages) (sym (append-nil repos), refl)
    | inl (p, read) ↦
        let rows = map map_repo_node p.nodes in
        let (all, fails) =
          graphql_pages_lem query fuel (some p.end_cursor) (repos ++ rows) (some p.remaining) in
        rw (read, graphql_pages)
          (elim (Bool-cases (is_empty p.errors)) [
            | inr bad ↦ rw (bad, graphql_pages) (sym (append-nil repos), refl)
            | inl fine ↦
                rw (fine, graphql_pages)
                  (elim (Bool-cases p.has_next_page) [
                    | inl more ↦ rw (more, graphql_pages) (all ∙ append_assoc repos rows _, fails)
                    | inr last ↦ rw (last, graphql_pages, append-nil rows) (refl, refl)
                  ])
          ])
  ]

  pub collect_graphql_lem :
      (query : Option String → Result OwnerPage)
      → ((collect_graphql query).repos ≡ repos_read query default_max_pages none)
        × (is_some (collect_graphql query).error ≡ query_fails query default_max_pages none)
  unfolding collect_graphql
  collect_graphql_lem query = graphql_pages_lem query default_max_pages none [] none

  -- Whether the alerts of an owner can be collected: of an organization by the pages of its listing,
  -- of a user by the listings of the repositories.
  abbrev pub code_fails : String → OwnerAnswers → Bool
  code_fails target_type a =
      if target_type == "user"
      then is_some (collect_code_scanning_for_user a.user_repos a.repo_code).error
      else listing_fails a.org_code default_max_pages 0

  abbrev pub secret_fails : String → OwnerAnswers → Bool
  secret_fails target_type a =
      if target_type == "user"
      then is_some (collect_secret_scanning_for_user a.user_repos a.repo_secret).error
      else listing_fails a.org_secret default_max_pages 0

  pub code_scanning-fails :
      (target_type : String) (a : OwnerAnswers)
      → is_some (collect_code_scanning target_type a).error ≡ code_fails target_type a
  unfolding collect_code_scanning collect_code_scanning_for_org
  code_scanning-fails target_type a = elim (Bool-cases (target_type == "user")) [
    | inl user ↦ rw user refl
    | inr org ↦
        rw org (org_pages-fails code_scanning_finding a.org_code default_max_pages 0 [] none)
  ]

  pub secret_scanning-fails :
      (target_type : String) (a : OwnerAnswers)
      → is_some (collect_secret_scanning target_type a).error ≡ secret_fails target_type a
  unfolding collect_secret_scanning collect_secret_scanning_for_org
  secret_scanning-fails target_type a = elim (Bool-cases (target_type == "user")) [
    | inl user ↦ rw user refl
    | inr org ↦ rw org (org_pages-fails secret_finding a.org_secret default_max_pages 0 [] none)
  ]
