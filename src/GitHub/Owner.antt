-- ===== src/GitHub/Owner.antt =====
-- The listings of a whole owner in internal/provider/github: collectGraphQL of graphql.go, and
-- codescanning.go and secretscanning.go for an organization and for a user.
pub mod Poll
pub mod Pages
pub mod Failures
pub mod Whole
use scm_metrics_exporter.Prelude.{
  ℕ, zero, suc, String, Bool, true, false, Option, none, some, List, [], ◌∷◌, ◌++◌, map, is_empty,
  if◌then◌else◌, ◌==◌, string_eq,
}
use scm_metrics_exporter.Prelude.Int.{ℤ}
use scm_metrics_exporter.Prelude.Assoc.{Map, adjust}
use scm_metrics_exporter.Prelude.Errors.{Error, message, Result, ok, err}
use scm_metrics_exporter.Prelude.Text.{Unicode}
use scm_metrics_exporter.Provider.{Finding}
use scm_metrics_exporter.GitHub.{
  Reply, Alert, SecretAlert, Scan, following, rate_after, default_max_pages, code_scanning_finding,
  secret_finding, code_scanning_for_repo, secret_scanning_for_repo,
}
use scm_metrics_exporter.GitHub.Repo.{GraphqlRepo, RepoNode, map_repo_node}

-- An alert of an organization's listing, with the name of its repository.
pub record Owned (A : Type 0) : Type 0 where
  pub repository : String
  pub alert : A

-- `codeScanningResult` and `secretScanningResult`, with the error that the call returned.
pub record Sweep : Type 0 where
  pub findings : Map String (List Finding)
  pub rate : Option ℤ
  pub error : Option Error

abbrev pub add_to : String → List Finding → Map String (List Finding) → Map String (List Finding)
add_to name fs = adjust [] (λ old. old ++ fs) name

module _ {A : Type 0} (finding : A → Finding) where
  -- An alert without a repository is left out.
  unfoldable pub group_page : List (Owned A) → Map String (List Finding) → Map String (List Finding)
  group_page [] m = m
  group_page (a ∷ alerts) m =
      group_page alerts
        (if a.repository == "" then m else add_to a.repository (finding a.alert ∷ []) m)

  -- The loop over the pages of an organization, of which at most `fuel` are read.
  unfoldable pub org_pages :
      (ℕ → Reply (Owned A)) → (fuel current : ℕ) → Map String (List Finding) → Option ℤ → Sweep
  unfolding group_page
  org_pages page zero current m rate = record { findings = m; rate = rate; error = none }
  org_pages page (suc fuel) current m rate =
      let reply = page current in
      let rate = rate_after rate reply.reply in
      elim reply.items [
        | err e ↦ record { findings = m; rate = rate; error = some e }
        | ok alerts ↦
            let m = group_page alerts m in
            elim (following reply.reply) [
              | none ↦ record { findings = m; rate = rate; error = none }
              | some next ↦ org_pages page fuel next m rate
            ]
      ]

-- The names of a user's repositories, with the rate reading.
pub record Listing : Type 0 where
  pub names : Result (List String)
  pub rate : Option ℤ

unfoldable pub named_repos : List String → List String
named_repos [] = []
named_repos (n ∷ ns) = let rest = named_repos ns in if n == "" then rest else n ∷ rest

unfoldable pub list_user_pages :
    (ℕ → Reply String) → (fuel current : ℕ) → List String → Option ℤ → Listing
unfolding named_repos
list_user_pages page zero current repos rate = record { names = ok repos; rate = rate }
list_user_pages page (suc fuel) current repos rate =
    let reply = page current in
    let rate = rate_after rate reply.reply in
    elim reply.items [
      | err e ↦ record { names = err e; rate = rate }
      | ok ns ↦
          let repos = repos ++ named_repos ns in
          elim (following reply.reply) [
            | none ↦ record { names = ok repos; rate = rate }
            | some next ↦ list_user_pages page fuel next repos rate
          ]
    ]

unfoldable pub list_user_repos : (ℕ → Reply String) → Listing
unfolding list_user_pages
list_user_repos page = list_user_pages page default_max_pages 0 [] none

-- The later reading, if there is one.
abbrev pub or_rate : Option ℤ → Option ℤ → Option ℤ
or_rate before none = before
or_rate before (some n) = some n

abbrev pub note_scan : String → Scan → Map String (List Finding) → Map String (List Finding)
note_scan repo scan m =
    if scan.accessible
    then (if is_empty scan.findings then m else add_to repo scan.findings m)
    else m

-- The loop over a user's repositories; `scan` lists the alerts of one of them.
unfoldable pub scan_repos :
    (String → Scan) → List String → Map String (List Finding) → Option ℤ → Sweep
scan_repos scan [] m rate = record { findings = m; rate = rate; error = none }
scan_repos scan (repo ∷ repos) m rate =
    let s = scan repo in
    elim s.error [
      | some e ↦ record { findings = m; rate = or_rate rate s.rate; error = some e }
      | none ↦ scan_repos scan repos (note_scan repo s m) (or_rate rate s.rate)
    ]

unfoldable pub user_sweep : (String → Scan) → Listing → Sweep
unfolding scan_repos
user_sweep scan listing = elim listing.names [
  | err e ↦ record { findings = []; rate = listing.rate; error = some e }
  | ok repos ↦ scan_repos scan repos [] listing.rate
]

unfoldable pub collect_secret_scanning_for_org : (ℕ → Reply (Owned SecretAlert)) → Sweep
unfolding org_pages
collect_secret_scanning_for_org page = org_pages secret_finding page default_max_pages 0 [] none

unfoldable pub collect_secret_scanning_for_user :
    (ℕ → Reply String) → (String → ℕ → Reply SecretAlert) → Sweep
unfolding user_sweep list_user_repos
collect_secret_scanning_for_user repos page =
    user_sweep (λ repo. secret_scanning_for_repo (page repo)) (list_user_repos repos)

-- One page of the query of an owner's repositories.
pub record OwnerPage : Type 0 where
  pub nodes : List RepoNode
  pub has_next_page : Bool
  pub end_cursor : String
  pub remaining : ℤ
  pub errors : List String

-- `graphqlResult`, with the error that the call returned.
pub record Graphql : Type 0 where
  pub repos : List GraphqlRepo
  pub rate : Option ℤ
  pub error : Option Error

module _ ⦃u : Unicode⦄ where
  unfoldable pub collect_code_scanning_for_org : (ℕ → Reply (Owned Alert)) → Sweep
  unfolding org_pages
  collect_code_scanning_for_org page =
      org_pages code_scanning_finding page default_max_pages 0 [] none

  unfoldable pub collect_code_scanning_for_user :
      (ℕ → Reply String) → (String → ℕ → Reply Alert) → Sweep
  unfolding user_sweep list_user_repos
  collect_code_scanning_for_user repos page =
      user_sweep (λ repo. code_scanning_for_repo (page repo)) (list_user_repos repos)

  -- The loop of collectGraphQL; `query` answers for a cursor.
  unfoldable pub graphql_pages :
      (Option String → Result OwnerPage)
      → (fuel : ℕ) → Option String
      → List GraphqlRepo
      → Option ℤ
      → Graphql
  graphql_pages query zero cursor repos rate = record { repos = repos; rate = rate; error = none }
  graphql_pages query (suc fuel) cursor repos rate = elim (query cursor) [
    | err e ↦ record { repos = repos; rate = rate; error = some e }
    | ok p ↦
        let more = repos ++ map map_repo_node p.nodes in
        let failure = message "github graphql errors" in
        let next = graphql_pages query fuel (some p.end_cursor) more (some p.remaining) in
        if is_empty p.errors
        then (if p.has_next_page
            then next
            else record { repos = more; rate = some p.remaining; error = none })
        else record { repos = repos; rate = rate; error = some failure }
  ]

  unfoldable pub collect_graphql : (Option String → Result OwnerPage) → Graphql
  unfolding graphql_pages
  collect_graphql query = graphql_pages query default_max_pages none [] none
