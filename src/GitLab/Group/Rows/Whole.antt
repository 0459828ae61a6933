-- ===== src/GitLab/Group/Rows/Whole.antt =====
-- The rows of a group's snapshot, from the answers of the APIs.
use scm_metrics_exporter.Prelude.{
  ℕ, String, ◌≡◌, refl, sym, ap, subst, ◌∙◌, true, false, Option, none, some, List, [], ◌∷◌, ◌++◌,
  map, contains, contains-append, IsDistinct, if◌then◌else◌, ◌==◌, string_eq, arith,
}
use scm_metrics_exporter.Prelude.Int.{ℤ}
use scm_metrics_exporter.Prelude.Assoc.{Map, keys, get, lookup}
use scm_metrics_exporter.Prelude.Errors.{Error, Gives, guarded}
use scm_metrics_exporter.Prelude.Text.{Unicode}
use scm_metrics_exporter.Provider.{Finding, RepoPosture}
use scm_metrics_exporter.Provider.Merge.{row_of}
use scm_metrics_exporter.GitLab.{Swept, default_max_pages}
use scm_metrics_exporter.GitLab.Pages.{
  rest_items, rest_pages-result, graphql_items, graphql_pages-result,
}
use scm_metrics_exporter.GitLab.Rest.{
  Project, RestProject, page_at, listed, add_projects, count_mrs, with_counts, list_projects,
  sweep_mrs, group_projects_path, group_mrs_path, counted_projects, collect_rest,
  collect_rest_for_group,
}
use scm_metrics_exporter.GitLab.Graphql.{
  Vulnerability, ProjectNode, ask, map_vulnerabilities, map_project_posture,
  collect_vulnerabilities, collect_project_posture,
}
use scm_metrics_exporter.GitLab.Merge.{paths, mrs_at, merge_repos, project_row, merge_projects_lem}
use scm_metrics_exporter.GitLab.Group.{
  Target, GroupAnswers, rest_of, both_failed, group_snapshot, snapshot_of_projects, snapshot,
}
use scm_metrics_exporter.GitLab.Group.Rows.{
  add_projects-IgnoresPages, count_mrs-IgnoresPages, mrs_of, mrs_at-with_counts, found_at,
  map_vulnerabilities-IgnoresPages, get-map_vulnerabilities, map_vulnerabilities-IsDistinct,
  posture_in, map_project_posture-IgnoresPages, lookup-map_project_posture,
  map_project_posture-IsDistinct,
}

counted_projects-fine :
    (projects : Swept (List RestProject)) (counts : Swept (Map ℤ ℕ)) (listing sweep : Option Error)
    → (counted_projects projects counts listing sweep).error ≡ none
    → (counted_projects projects counts listing sweep).result
      ≡ with_counts counts.result projects.result
counted_projects-fine projects counts (some e) sweep fine = cc
counted_projects-fine projects counts none (some e) fine = cc
counted_projects-fine projects counts none none fine = refl

paths-with_counts :
    (counts : Map ℤ ℕ) (ps : List Project)
    → paths (with_counts counts (map listed ps)) ≡ map (λ p. p.path_with_namespace) ps
unfolding with_counts
paths-with_counts counts [] = refl
paths-with_counts counts (p ∷ ps) =
    ap (λ ns. p.path_with_namespace ∷ ns) (paths-with_counts counts ps)

-- A project that the REST API lists has a row.
pub listed_row :
    (ps : List RestProject) (fm : Map String (List Finding)) (posture : Map String RepoPosture)
    (n : String)
    → IsDistinct (keys fm)
    → IsDistinct (keys posture)
    → contains (paths ps) n ≡ true
    → row_of n (merge_repos ps fm posture)
      ≡ some (project_row n (mrs_at n ps 0) (get [] n fm) (lookup n posture))
listed_row ps fm posture n d e here =
    let row = some (project_row n (mrs_at n ps 0) (get [] n fm) (lookup n posture)) in
    let named : contains (keys posture ++ (keys fm ++ paths ps)) n ≡ true = ground (
      arith,
      here,
      contains-append (keys posture) (keys fm ++ paths ps) n,
      contains-append (keys fm) (paths ps) n,
    ) in
    (merge_projects_lem ps fm posture n d e).2 ∙ ap (λ b. if b then row else none) named

-- What the pages of the REST API list of a group.
module _ (t : Target) (a : GroupAnswers) where
  abbrev pub projects_read : List Project
  projects_read =
      rest_items a.json.projects (page_at a.http (group_projects_path t.include_archived t.target))
        default_max_pages "1"

  abbrev pub mrs_read : List ℤ
  mrs_read =
      rest_items a.json.merge_requests (page_at a.http (group_mrs_path t.target)) default_max_pages
        "1"

  collected :
      (t.target_type == "user") ≡ false
      → rest_of t a ≡ (
          let projects =
            list_projects a.http a.json (group_projects_path t.include_archived t.target) in
          let counts = sweep_mrs a.http a.json (group_mrs_path t.target) projects.rate in
          counted_projects projects counts projects.error counts.error)
  unfolding rest_of collect_rest collect_rest_for_group
  collected group = rw group refl

  -- Without an error, a group has the projects of the pages that were read, with their counts.
  rest_of-result :
      (t.target_type == "user") ≡ false
      → (rest_of t a).error ≡ none
      → (rest_of t a).result ≡ with_counts (count_mrs [] mrs_read) (map listed projects_read)
  unfolding list_projects sweep_mrs add_projects
  rest_of-result group fine =
      let path = group_projects_path t.include_archived t.target in
      let projects = list_projects a.http a.json path in
      let counts = sweep_mrs a.http a.json (group_mrs_path t.target) projects.rate in
      let listed_as : projects.result ≡ map listed projects_read =
        rest_pages-result add_projects a.json.projects (page_at a.http path) default_max_pages "1"
          [] none add_projects-IgnoresPages in
      let counted_as : counts.result ≡ count_mrs [] mrs_read =
        rest_pages-result count_mrs a.json.merge_requests (page_at a.http (group_mrs_path t.target))
          default_max_pages "1" [] projects.rate count_mrs-IgnoresPages in
      ap (λ s. s.result) (collected group)
      ∙ counted_projects-fine projects counts projects.error counts.error
          (ap (λ s. s.error) (sym (collected group)) ∙ fine)
      ∙ ap (λ c. with_counts c projects.result) counted_as
      ∙ ap (λ ps. with_counts (count_mrs [] mrs_read) ps) listed_as

module _ ⦃u : Unicode⦄ (t : Target) (a : GroupAnswers) where
  -- The pages of the GraphQL API.
  abbrev pub vulnerabilities_read : List Vulnerability
  vulnerabilities_read = graphql_items (ask a.vulnerabilities) default_max_pages none

  abbrev pub nodes_read : List ProjectNode
  nodes_read = graphql_items (ask a.posture) default_max_pages none

  abbrev vulns : Map String (List Finding)
  vulns = (collect_vulnerabilities (ask a.vulnerabilities)).result

  abbrev posture : Map String RepoPosture
  posture = (collect_project_posture (ask a.posture)).result

  vulns-read : vulns ≡ map_vulnerabilities [] vulnerabilities_read
  unfolding collect_vulnerabilities
  vulns-read =
      graphql_pages-result map_vulnerabilities _ (ask a.vulnerabilities) default_max_pages none []
        none map_vulnerabilities-IgnoresPages

  posture-read : posture ≡ map_project_posture [] nodes_read
  unfolding collect_project_posture
  posture-read =
      graphql_pages-result map_project_posture _ (ask a.posture) default_max_pages none [] none
        map_project_posture-IgnoresPages

  found : (n : String) → get [] n vulns ≡ found_at n vulnerabilities_read
  unfolding lookup
  found n = ap (λ m. get [] n m) vulns-read ∙ get-map_vulnerabilities n vulnerabilities_read []

  posture_found : (n : String) → lookup n posture ≡ posture_in n nodes_read none
  unfolding lookup
  posture_found n = ap (λ m. lookup n m) posture-read ∙ lookup-map_project_posture n nodes_read []

  vulns-IsDistinct : IsDistinct (keys vulns)
  vulns-IsDistinct =
      subst (λ m. IsDistinct (keys m)) (sym vulns-read)
        (map_vulnerabilities-IsDistinct vulnerabilities_read [] tt)

  posture-IsDistinct : IsDistinct (keys posture)
  posture-IsDistinct =
      subst (λ m. IsDistinct (keys m)) (sym posture-read)
        (map_project_posture-IsDistinct nodes_read [] tt)

  merged_row :
      (n : String)
      → (t.target_type == "user") ≡ false
      → (rest_of t a).error ≡ none
      → contains (map (λ p. p.path_with_namespace) (projects_read t a)) n ≡ true
      → row_of n (merge_repos (rest_of t a).result vulns posture)
        ≡ some (
            project_row n
              (mrs_of n (projects_read t a) (mrs_read t a) 0)
              (found_at n vulnerabilities_read)
              (posture_in n nodes_read none))
  merged_row n group fine here =
      let mrs = mrs_read t a in
      let ps = with_counts (count_mrs [] mrs) (map listed (projects_read t a)) in
      let named : contains (paths ps) n ≡ true =
        ap (λ ns. contains ns n) (paths-with_counts (count_mrs [] mrs) (projects_read t a))
        ∙ here in
      ap (λ ps. row_of n (merge_repos ps vulns posture)) (rest_of-result t a group fine)
      ∙ listed_row ps vulns posture n vulns-IsDistinct posture-IsDistinct named
      ∙ ap (λ k. some (project_row n k (get [] n vulns) (lookup n posture)))
          (mrs_at-with_counts n (projects_read t a) mrs 0)
      ∙ ap (λ fs. some (project_row n (mrs_of n (projects_read t a) mrs 0) fs (lookup n posture)))
          (found n)
      ∙ ap
          (λ o. some (
            project_row n (mrs_of n (projects_read t a) mrs 0) (found_at n vulnerabilities_read) o))
          (posture_found n)

  -- A group is collected whose REST API does not fail. The snapshot has a row for each project of
  -- the listed pages: with the number of the open merge requests on the pages of the sweep that
  -- are of the project's identifier, the findings of the vulnerabilities of that path on the
  -- pages that were read, in the order of sortFindings, and the posture of the last node of that
  -- path. Nothing else is in the row.
  pub group_row :
      (n : String)
      → (t.target_type == "user") ≡ false
      → (rest_of t a).error ≡ none
      → contains (map (λ p. p.path_with_namespace) (projects_read t a)) n ≡ true
      → Gives
          (λ s.
            row_of n s.repos
            ≡ some (
                project_row n
                  (mrs_of n (projects_read t a) (mrs_read t a) 0)
                  (found_at n vulnerabilities_read)
                  (posture_in n nodes_read none)))
          (snapshot t a)
  unfolding snapshot snapshot_of_projects group_snapshot
  group_row n group fine here =
      let vs = collect_vulnerabilities (ask a.vulnerabilities) in
      let ns = collect_project_posture (ask a.posture) in
      rw group (
        (guarded _ (both_failed (rest_of t a).error vs.error ns.error)
          (group_snapshot (rest_of t a) vs ns) (merged_row n group fine here)).1)
