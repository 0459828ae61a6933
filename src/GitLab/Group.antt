-- ===== src/GitLab/Group.antt =====
-- `Snapshot` of internal/provider/gitlab/gitlab.go: all the projects of a group or a user.
pub mod Rows
pub mod User
use scm_metrics_exporter.Prelude.{
  ℕ, String, ◌≡◌, refl, ◌∙◌, Bool, true, false, ◌&&◌, ◌||◌, Option, none, some, List, [], ◌∷◌, ◌++◌,
  if◌then◌else◌, ◌==◌, string_eq, Bool-cases, inl, inr,
}
use scm_metrics_exporter.Prelude.Assoc.{Map}
use scm_metrics_exporter.Prelude.Errors.{
  Error, wrap, joined, to_errors, Result, ok, err, failed, is_some, Gives, guarded,
}
use scm_metrics_exporter.Prelude.Text.{Unicode}
use scm_metrics_exporter.Provider.{
  Finding, RepoPosture, Snapshot, SourceError, resource_graphql, resource_rest, source_graphql,
  source_rest,
}
use scm_metrics_exporter.Provider.Sources.{reading, source_error}
use scm_metrics_exporter.GitLab.{HttpResponse, Swept, later_rate}
use scm_metrics_exporter.GitLab.Rest.{RestProject, Json, collect_rest}
use scm_metrics_exporter.GitLab.Graphql.{
  Vulnerability, ProjectNode, Query, ask, collect_vulnerabilities, collect_project_posture,
}
use scm_metrics_exporter.GitLab.Merge.{merge_repos}

-- The answers of the APIs for a group or a user.
pub record GroupAnswers : Type 0 where
  pub http : String → Result HttpResponse
  pub json : Json
  pub vulnerabilities : Query Vulnerability
  pub posture : Query ProjectNode

pub record Target : Type 0 where
  pub target_type : String
  pub include_archived : Bool
  pub target : String

abbrev listed_errors : Error → Error → Option Error → List Error
listed_errors e f none = e ∷ f ∷ []
listed_errors e f (some g) = e ∷ f ∷ g ∷ []

-- The posture is supplementary: it does not save a snapshot, and its failure does not end one.
abbrev both_failed : Option Error → Option Error → Option Error → Option Error
both_failed (some e) (some f) posture =
    some (wrap "gitlab: all sources failed" (joined (to_errors (listed_errors e f posture))))
both_failed none vulns posture = none
both_failed (some e) none posture = none

abbrev rest_failed : Option Error → Option Error
rest_failed none = none
rest_failed (some e) = some (wrap "gitlab: rest failed for user" e)

unfoldable pub user_snapshot : Swept (List RestProject) → Snapshot
user_snapshot rest = record {
  repos = merge_repos rest.result [] [];
  rate_limits = reading resource_rest rest.rate;
  source_errors = [];
}

unfoldable pub group_snapshot :
    Swept (List RestProject)
    → Swept (Map String (List Finding))
    → Swept (Map String RepoPosture)
    → Snapshot
group_snapshot rest vulns posture = record {
  repos = merge_repos rest.result vulns.result posture.result;
  rate_limits =
      reading resource_rest rest.rate
      ++ reading resource_graphql (later_rate vulns.rate posture.rate);
  source_errors =
      source_error (is_some rest.error) source_rest
      ++ source_error (is_some vulns.error || is_some posture.error) source_graphql;
}

both_failed-is_some :
    (rest vulns posture : Option Error)
    → is_some (both_failed rest vulns posture) ≡ (is_some rest && is_some vulns)
both_failed-is_some (some e) (some f) posture = refl
both_failed-is_some none vulns posture = refl
both_failed-is_some (some e) none posture = refl

rest_failed-is_some : (rest : Option Error) → is_some (rest_failed rest) ≡ is_some rest
rest_failed-is_some none = refl
rest_failed-is_some (some e) = refl

unfoldable pub rest_of : Target → GroupAnswers → Swept (List RestProject)
rest_of t a = collect_rest a.http a.json t.target_type t.include_archived t.target

module _ ⦃u : Unicode⦄ where
  unfoldable pub snapshot_of_user : Target → GroupAnswers → Result Snapshot
  unfolding user_snapshot rest_of
  snapshot_of_user t a =
      let rest = rest_of t a in
      elim (rest_failed rest.error) [ some e ↦ err e | none ↦ ok (user_snapshot rest) ]

  unfoldable pub snapshot_of_projects : Target → GroupAnswers → Result Snapshot
  unfolding group_snapshot rest_of
  snapshot_of_projects t a =
      let rest = rest_of t a in
      let vulns = collect_vulnerabilities (ask a.vulnerabilities) in
      let posture = collect_project_posture (ask a.posture) in
      elim (both_failed rest.error vulns.error posture.error) [
        | some e ↦ err e
        | none ↦ ok (group_snapshot rest vulns posture)
      ]

  unfoldable pub snapshot : Target → GroupAnswers → Result Snapshot
  unfolding snapshot_of_user snapshot_of_projects
  snapshot t a = if t.target_type == "user" then snapshot_of_user t a else snapshot_of_projects t a

-- Whether collecting fails, and the sources that a snapshot reports, by the type of the target.
abbrev pub fails : (user rest vulns : Bool) → Bool
fails user rest vulns = if user then rest else rest && vulns

abbrev pub reports : (user rest graphql : Bool) → List SourceError
reports user rest graphql =
    if user then [] else source_error rest source_rest ++ source_error graphql source_graphql

module _ ⦃u : Unicode⦄ (t : Target) (a : GroupAnswers) where
  -- Collecting a user fails exactly if the REST API fails, and its snapshot reports no source error.
  -- Collecting a group fails exactly if both the REST API and the vulnerabilities fail; its
  -- snapshot reports the REST API if it failed, and GraphQL once if the vulnerabilities or the
  -- posture failed.
  pub snapshot_sources :
      let user = t.target_type == "user" in
      let rest = rest_of t a in
      let vulns = collect_vulnerabilities (ask a.vulnerabilities) in
      let posture = collect_project_posture (ask a.posture) in
      (failed (snapshot t a) ≡ fails user (is_some rest.error) (is_some vulns.error))
      × Gives
          (λ s.
            s.source_errors
            ≡ reports user (is_some rest.error) (is_some vulns.error || is_some posture.error))
          (snapshot t a)
  unfolding snapshot snapshot_of_user snapshot_of_projects user_snapshot group_snapshot
  snapshot_sources =
      let rest = rest_of t a in
      let vulns = collect_vulnerabilities (ask a.vulnerabilities) in
      let posture = collect_project_posture (ask a.posture) in
      elim (Bool-cases (t.target_type == "user")) [
        | inl user ↦ rw user (
            let (fails, gives) = guarded _ (rest_failed rest.error) (user_snapshot rest) refl in
            (fails ∙ rest_failed-is_some rest.error, gives))
        | inr group ↦ rw group (
            let (fails, gives) =
              guarded _ (both_failed rest.error vulns.error posture.error)
                (group_snapshot rest vulns posture) refl in
            (fails ∙ both_failed-is_some rest.error vulns.error posture.error, gives))
      ]
