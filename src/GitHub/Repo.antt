-- ===== src/GitHub/Repo.antt =====
-- internal/provider/github/github.go and graphql.go: the snapshot of one repository.
use scm_metrics_exporter.Prelude.{
  ℕ, String, Bool, false, ◌||◌, Option, none, some, List, [], ◌∷◌, ◌++◌, map, ltb, string_eq,
}
use scm_metrics_exporter.Prelude.Int.{ℤ, pos}
use scm_metrics_exporter.Prelude.Assoc.{Map, adjust}
use scm_metrics_exporter.Prelude.Errors.{message, Result, ok, err}
use scm_metrics_exporter.Prelude.Text.{Unicode, to_lower}
use scm_metrics_exporter.Provider.{Finding, RepoPosture, RepoMetrics, category_dependency}
use scm_metrics_exporter.Provider.Merge.{Merged, no_metrics, rows, merged_rows}
use scm_metrics_exporter.Provider.Merge.Findings.{add_finding_map}
use scm_metrics_exporter.Provider.Severity.{normalize_severity}

-- An open Dependabot alert; an instant that is no RFC 3339 text is none.
pub record VulnerabilityAlert : Type 0 where
  pub severity : String
  pub ecosystem : String
  pub created_at : Option ℤ

-- The default branch: whether it has a protection rule, and the number of its rules.
pub record BranchRef : Type 0 where
  pub has_protection_rule : Bool
  pub rules : ℕ

pub record RepoNode : Type 0 where
  pub name : String
  pub is_archived : Bool
  pub visibility : String
  pub has_vulnerability_alerts_enabled : Bool
  pub default_branch_ref : Option BranchRef
  pub pull_requests : ℕ
  pub vulnerability_alerts : List VulnerabilityAlert

pub record GraphqlRepo : Type 0 where
  pub name : String
  pub open_prs : ℕ
  pub findings : List Finding
  pub posture : Option RepoPosture

-- The answer to the query of one repository.
pub record RepoResponse : Type 0 where
  pub repository : Option RepoNode
  pub remaining : ℤ
  pub errors : List String

abbrev parse_graphql_time : Option ℤ → ℤ
parse_graphql_time none = pos 0
parse_graphql_time (some t) = t

abbrev is_protected : Option BranchRef → Bool
is_protected none = false
is_protected (some b) = b.has_protection_rule || ltb 0 b.rules

-- What `collectRepoGraphQL` returns: the repository and the rate reading.
pub record GraphqlReading : Type 0 where
  pub repo : Result GraphqlRepo
  pub rate : Option ℤ

module _ ⦃u : Unicode⦄ where
  abbrev dependency_finding : VulnerabilityAlert → Finding
  dependency_finding a = record {
    severity = normalize_severity a.severity;
    category = category_dependency;
    ecosystem = to_lower a.ecosystem;
    tool = "";
    created_at = parse_graphql_time a.created_at;
  }

  unfoldable pub map_repo_node : RepoNode → GraphqlRepo
  map_repo_node n = record {
    name = n.name;
    open_prs = n.pull_requests;
    findings = map dependency_finding n.vulnerability_alerts;
    posture = some (record {
      visibility = to_lower n.visibility;
      archived = n.is_archived;
      dependabot_enabled = n.has_vulnerability_alerts_enabled;
      branch_protected = is_protected n.default_branch_ref;
      secret_scanning_enabled = false;
    });
  }

  abbrev repository_of : List String → Option RepoNode → Result GraphqlRepo
  repository_of (e ∷ es) _ = err (message "github graphql errors")
  repository_of [] none = err (message "github graphql: repository not found or inaccessible")
  repository_of [] (some n) = ok (map_repo_node n)

  unfoldable pub collect_repo_graphql : Result RepoResponse → GraphqlReading
  unfolding map_repo_node
  collect_repo_graphql (err e) = record { repo = err e; rate = none }
  collect_repo_graphql (ok r) = record {
    repo = repository_of r.errors r.repository;
    rate = some r.remaining;
  }

abbrev pub with_repo : GraphqlRepo → RepoMetrics → RepoMetrics
with_repo g r = record r {
  open_review_items = g.open_prs;
  findings = r.findings ++ g.findings;
  posture = g.posture;
}

unfoldable pub add_repo : GraphqlRepo → Merged → Merged
add_repo g = adjust (no_metrics g.name) (with_repo g) g.name

unfoldable pub add_repos : List GraphqlRepo → Merged → Merged
unfolding add_repo
add_repos [] m = m
add_repos (g ∷ gs) m = add_repos gs (add_repo g m)

unfoldable pub add_finding_maps : List (Map String (List Finding)) → Merged → Merged
unfolding add_finding_map
add_finding_maps [] m = m
add_finding_maps (fm ∷ fms) m = add_finding_maps fms (add_finding_map fm m)

unfoldable pub merge_repos : List GraphqlRepo → List (Map String (List Finding)) → List RepoMetrics
unfolding add_repos add_finding_maps merged_rows
merge_repos gql finding_maps = let m = add_finding_maps finding_maps (add_repos gql []) in rows m
