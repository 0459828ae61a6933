-- ===== src/GitHub/Owner/Poll.antt =====
-- `Snapshot` of internal/provider/github/github.go: all the repositories of an owner.
use scm_metrics_exporter.Prelude.{
  ℕ, String, Option, none, some, [], ◌∷◌, ◌++◌, if◌then◌else◌, ◌==◌, string_eq,
}
use scm_metrics_exporter.Prelude.Errors.{Error, wrap, joined, to_errors, Result, ok, err, is_some}
use scm_metrics_exporter.Prelude.Text.{Unicode}
use scm_metrics_exporter.Provider.{
  Snapshot, resource_graphql, resource_rest, source_graphql, source_rest, source_secret_scanning,
}
use scm_metrics_exporter.GitHub.{Reply, Alert, SecretAlert}
use scm_metrics_exporter.GitHub.Repo.{merge_repos}
use scm_metrics_exporter.GitHub.Collect.{shared_rate}
use scm_metrics_exporter.Provider.Sources.{source_error, reading}
use scm_metrics_exporter.GitHub.Owner.{
  Owned, Sweep, OwnerPage, Graphql, collect_graphql, collect_code_scanning_for_org,
  collect_code_scanning_for_user, collect_secret_scanning_for_org, collect_secret_scanning_for_user,
}

-- The answers of the APIs for one owner.
pub record OwnerAnswers : Type 0 where
  pub graphql : Option String → Result OwnerPage
  pub user_repos : ℕ → Reply String
  pub org_code : ℕ → Reply (Owned Alert)
  pub org_secret : ℕ → Reply (Owned SecretAlert)
  pub repo_code : String → ℕ → Reply Alert
  pub repo_secret : String → ℕ → Reply SecretAlert

unfoldable pub collect_secret_scanning : String → OwnerAnswers → Sweep
collect_secret_scanning target_type a =
    if target_type == "user"
    then collect_secret_scanning_for_user a.user_repos a.repo_secret
    else collect_secret_scanning_for_org a.org_secret

abbrev pub every_failed : Option Error → Option Error → Option Error → Option Error
every_failed (some e) (some f) (some g) =
    some (wrap "github: all sources failed" (joined (to_errors (e ∷ f ∷ g ∷ []))))
every_failed none cs ss = none
every_failed (some e) none ss = none
every_failed (some e) (some f) none = none

-- What the sources gave, merged.
unfoldable pub owner_snapshot : Graphql → Sweep → Sweep → Snapshot
owner_snapshot gql cs ss = record {
  repos = merge_repos gql.repos (cs.findings ∷ ss.findings ∷ []);
  rate_limits =
      reading resource_graphql gql.rate ++ reading resource_rest (shared_rate cs.rate ss.rate);
  source_errors =
      source_error (is_some gql.error) source_graphql
      ++ (source_error (is_some cs.error) source_rest
          ++ source_error (is_some ss.error) source_secret_scanning);
}

module _ ⦃u : Unicode⦄ where
  unfoldable pub collect_code_scanning : String → OwnerAnswers → Sweep
  collect_code_scanning target_type a =
      if target_type == "user"
      then collect_code_scanning_for_user a.user_repos a.repo_code
      else collect_code_scanning_for_org a.org_code

  unfoldable pub snapshot : String → OwnerAnswers → Result Snapshot
  unfolding owner_snapshot
  snapshot target_type a =
      let gql = collect_graphql a.graphql in
      let cs = collect_code_scanning target_type a in
      let ss = collect_secret_scanning target_type a in
      elim (every_failed gql.error cs.error ss.error) [
        | some e ↦ err e
        | none ↦ ok (owner_snapshot gql cs ss)
      ]
