-- ===== src/Examples/GitLab.antt =====
-- Examples about internal/provider/gitlab: a group of two projects, a user, and one project.
use scm_metrics_exporter.Prelude.{
  map, filter, String, ◌≡◌, refl, true, false, ◌&&◌, ◌||◌, none, some, List, [], ◌∷◌, map, count,
  contains, if◌then◌else◌, ◌==◌, string_eq,
}
use scm_metrics_exporter.Prelude.Int.{ℤ, pos}
use scm_metrics_exporter.Prelude.Assoc.{or_else}
use scm_metrics_exporter.Prelude.Sort.{IsSorted}
use scm_metrics_exporter.Prelude.Errors.{message, canceled, Result, ok, err, failed, is_some, Gives}
use scm_metrics_exporter.Prelude.Text.{plain}
use scm_metrics_exporter.Prelude.Text.Url.{path_escape}
use scm_metrics_exporter.Prelude.Text.Decimal.{format_int}
use scm_metrics_exporter.Provider.Merge.{row_of}
use scm_metrics_exporter.Provider.Tally.{count_in}
use scm_metrics_exporter.Provider.Tally.Order.{leb_stat}
use scm_metrics_exporter.GitLab.{HttpResponse, get_page, default_max_pages}
use scm_metrics_exporter.GitLab.Pages.{graphql_items, rest_items, rest_fails, graphql_fails}
use scm_metrics_exporter.GitLab.Rest.{
  page_at, Project, Json, add_projects, collect_rest, group_projects_path, group_mrs_path,
  user_projects_path,
}
use scm_metrics_exporter.GitLab.Graphql.{
  Vulnerability, ProjectNode, Query, ask, post, collect_vulnerabilities, collect_project_posture,
}
use scm_metrics_exporter.GitLab.Repo.{
  Pipeline, ResolvedVulnerability, collect_repo_mrs, collect_repo_vulnerabilities,
  collect_repo_posture, collect_pipeline_runs, collect_resolved_findings, pipelines_path,
}
use scm_metrics_exporter.GitLab.Collect.{
  Answers, Settings, snapshot_repo, reported, pipeline_runs, resolved_findings,
  snapshot_project_lem,
}
use scm_metrics_exporter.GitLab.Merge.{project_row}
use scm_metrics_exporter.GitLab.Group.{
  Target, GroupAnswers, rest_of, snapshot, fails, reports, snapshot_sources,
}
use scm_metrics_exporter.GitLab.Group.Rows.{mrs_of, found_at, posture_in}
use scm_metrics_exporter.GitLab.Group.Rows.Whole.{
  projects_read, mrs_read, vulnerabilities_read, nodes_read, group_row,
}
use scm_metrics_exporter.GitLab.Group.User.{owned_read, own_mrs_of, user_row}
use scm_metrics_exporter.GitLab.Resolutions.{wanted, finding_for, collect_resolved_findings_lem}
use scm_metrics_exporter.GitLab.History.{ended_as, pipelines_read, collect_pipeline_runs_lem}
use scm_metrics_exporter.GitLab.Whole.{whole_project, snapshot_project-IsWhole}

abbrev page : String → String → Result HttpResponse
page next body = ok (record {
  status = 200;
  rate_limit_remaining = "59";
  retry_after = "";
  next_page = next;
  body = ok body;
})

-- Two pages of projects, one page of merge requests for each listing; nothing else is found.
abbrev http : String → Result HttpResponse
http path =
    if path
      == "/groups/grp/projects?include_subgroups=true&simple=true&per_page=100&archived=false&page=1"
    then page "2" "first"
    else if path
        == "/groups/grp/projects?include_subgroups=true&simple=true&per_page=100&archived=false&page=2"
    then page "" "second"
    else if path == "/users/ann/projects?simple=true&per_page=100&archived=false&page=1"
    then page "" "first"
    else if path == "/groups/grp/merge_requests?state=opened&scope=all&per_page=100&page=1"
    then page "" "mrs"
    else if path == "/projects/1/merge_requests?state=opened&per_page=100&page=1"
    then page "" "mrs"
    else if path == "/projects/grp%2Fa/merge_requests?state=opened&per_page=100&page=1"
    then page "" "mrs"
    else if path
        == "/projects/grp%2Fa/pipelines?updated_after=2024-01-01T00%3A00%3A00Z&per_page=100&page=1"
    then page "" "pipelines"
    else err canceled

abbrev decode_projects : String → Result (List Project)
decode_projects body =
    if body == "first"
    then ok (record { id = pos 1; path_with_namespace = "grp/a" } ∷ [])
    else if body == "second"
    then ok (record { id = pos 2; path_with_namespace = "grp/sub/a" } ∷ [])
    else err (message "invalid")

abbrev decode_mrs : String → Result (List ℤ)
decode_mrs body = if body == "mrs" then ok (pos 1 ∷ pos 2 ∷ pos 1 ∷ []) else err (message "invalid")

abbrev decode_pipelines : String → Result (List Pipeline)
decode_pipelines body =
    if body == "pipelines"
    then ok (
        record { status = "SUCCESS"; source = "push" }
        ∷ record { status = "running"; source = "push" }
        ∷ record { status = "success"; source = "" }
        ∷ [])
    else err (message "invalid")

abbrev json : Json
json = record { projects = decode_projects; merge_requests = decode_mrs }

abbrev injection : Vulnerability
injection = record {
  severity = "HIGH";
  report_type = "SAST";
  scanner = "semgrep";
  full_path = "grp/a";
  detected_at = some (pos 5);
}

abbrev one_page : {A : Type 0} → List A → Query A
one_page nodes = record {
  send = λ _. page "" "";
  decode = λ _. ok (record {
    connection = some (record { nodes = nodes; has_next_page = false; end_cursor = "" });
    errors = [];
  });
}

abbrev node_a : ProjectNode
node_a = record {
  full_path = "grp/a";
  visibility = "PRIVATE";
  archived = false;
  security_scanners = some ("SECRET_DETECTION" ∷ []);
  branch_rules = none;
}

abbrev grp_answers : GroupAnswers
grp_answers = record {
  http = http;
  json = json;
  vulnerabilities = one_page (injection ∷ record injection { report_type = "FUZZING" } ∷ []);
  posture = one_page (node_a ∷ []);
}

abbrev grp : Target
grp = record { target_type = "group"; include_archived = false; target = "grp" }

abbrev ann : Target
ann = record { target_type = "user"; include_archived = false; target = "ann" }

grp_fine : (rest_of grp grp_answers).error ≡ none
unfolding rest_of collect_rest get_page path_escape
grp_fine = refl

ann_fine : (rest_of ann grp_answers).error ≡ none
unfolding rest_of collect_rest get_page path_escape add_projects format_int
ann_fine = refl

grp_listed :
    contains (map (λ p. p.path_with_namespace) (projects_read grp grp_answers)) "grp/a" ≡ true
unfolding rest_items get_page group_projects_path path_escape
grp_listed = refl

ann_listed : contains (map (λ p. p.path_with_namespace) (owned_read ann grp_answers)) "grp/a" ≡ true
unfolding rest_items get_page user_projects_path path_escape
ann_listed = refl

group_row_example :
    Gives
      (λ s.
        row_of "grp/a" s.repos
        ≡ some (
            project_row "grp/a"
              (mrs_of "grp/a" (projects_read grp grp_answers) (mrs_read grp grp_answers) 0)
              (found_at ⦃u = plain⦄ "grp/a" (vulnerabilities_read ⦃u = plain⦄ grp grp_answers))
              (posture_in ⦃u = plain⦄ "grp/a" (nodes_read ⦃u = plain⦄ grp grp_answers) none)))
      (snapshot ⦃u = plain⦄ grp grp_answers)
group_row_example = group_row ⦃u = plain⦄ grp grp_answers "grp/a" refl grp_fine grp_listed

user_row_example :
    Gives
      (λ s.
        row_of "grp/a" s.repos
        ≡ some (
            project_row "grp/a"
              (own_mrs_of grp_answers "grp/a" (owned_read ann grp_answers) 0)
              []
              none))
      (snapshot ⦃u = plain⦄ ann grp_answers)
user_row_example = user_row ⦃u = plain⦄ ann grp_answers "grp/a" refl ann_fine ann_listed

snapshot_sources_example :
    (failed (snapshot ⦃u = plain⦄ grp grp_answers)
      ≡ fails false
          (is_some (rest_of grp grp_answers).error)
          (is_some (collect_vulnerabilities ⦃u = plain⦄ (ask grp_answers.vulnerabilities)).error))
    × Gives
        (λ s.
          s.source_errors
          ≡ reports false (is_some (rest_of grp grp_answers).error) (
              is_some (collect_vulnerabilities ⦃u = plain⦄ (ask grp_answers.vulnerabilities)).error
              || is_some (collect_project_posture ⦃u = plain⦄ (ask grp_answers.posture)).error))
        (snapshot ⦃u = plain⦄ grp grp_answers)
snapshot_sources_example = snapshot_sources ⦃u = plain⦄ grp grp_answers

abbrev fixed : ResolvedVulnerability
fixed = record {
  id = "gid://gitlab/Vulnerability/1";
  severity = "LOW";
  report_type = "SAST";
  state = "RESOLVED";
  detected_at = some (pos 5);
  resolved_at = some (some (pos 90));
  dismissed_at = none;
  dismissal_reason = none;
}

-- One project whose posture is refused.
abbrev a_answers : Answers
a_answers = record {
  http = http;
  merge_requests = decode_mrs;
  pipelines = decode_pipelines;
  vulnerabilities = one_page (injection ∷ []);
  posture = err canceled;
  decode_posture = λ _. err (message "invalid");
  resolved = one_page (fixed ∷ record fixed { resolved_at = some (some (pos 10)) } ∷ []);
}

abbrev a_settings : Settings
a_settings = record {
  collect_workflows = true;
  collect_lifecycle = true;
  workflows_since = "2024-01-01T00:00:00Z";
  resolved_since = pos 50;
}

snapshot_project_lem_example :
    (failed (snapshot_repo ⦃u = plain⦄ a_settings a_answers "grp/a") ≡ (
      is_some (collect_repo_mrs http decode_mrs "grp/a").error
      && (is_some (collect_repo_vulnerabilities ⦃u = plain⦄ (ask a_answers.vulnerabilities)).error
          && failed
              (collect_repo_posture ⦃u = plain⦄
                (post a_answers.decode_posture a_answers.posture)).answer)))
    × Gives
        (λ s.
          s.source_errors
          ≡ reported
              (is_some (collect_repo_mrs http decode_mrs "grp/a").error)
              (is_some
                  (collect_repo_vulnerabilities ⦃u = plain⦄ (ask a_answers.vulnerabilities)).error
                || failed
                    (collect_repo_posture ⦃u = plain⦄
                      (post a_answers.decode_posture a_answers.posture)).answer)
              (a_settings.collect_workflows
                && failed (pipeline_runs ⦃u = plain⦄ a_settings a_answers "grp/a"))
              (a_settings.collect_lifecycle
                && failed (resolved_findings ⦃u = plain⦄ a_settings a_answers)))
        (snapshot_repo ⦃u = plain⦄ a_settings a_answers "grp/a")
snapshot_project_lem_example = snapshot_project_lem ⦃u = plain⦄ a_settings a_answers "grp/a"

snapshot_project-IsWhole_example :
    Gives
      (λ s. s.repos ≡ whole_project ⦃u = plain⦄ a_settings a_answers "grp/a" ∷ [])
      (snapshot_repo ⦃u = plain⦄ a_settings a_answers "grp/a")
snapshot_project-IsWhole_example = snapshot_project-IsWhole ⦃u = plain⦄ a_settings a_answers "grp/a"

collect_pipeline_runs_lem_example :
    (failed (collect_pipeline_runs ⦃u = plain⦄ http decode_pipelines "grp/a" "2024-01-01T00:00:00Z")
      ≡ rest_fails decode_pipelines
          (page_at http (pipelines_path "grp/a" "2024-01-01T00:00:00Z"))
          default_max_pages
          "1")
    × Gives
        (λ rows.
          IsSorted leb_stat rows
          × (or_else 0 (count_in "push" "success" rows)
              ≡ count (ended_as ⦃u = plain⦄ "push" "success") (
                  pipelines_read ⦃u = plain⦄ http decode_pipelines "grp/a" "2024-01-01T00:00:00Z")))
        (collect_pipeline_runs ⦃u = plain⦄ http decode_pipelines "grp/a" "2024-01-01T00:00:00Z")
collect_pipeline_runs_lem_example =
    collect_pipeline_runs_lem ⦃u = plain⦄ http decode_pipelines "grp/a" "2024-01-01T00:00:00Z"
      "push" "success"

collect_resolved_findings_lem_example :
    (failed (collect_resolved_findings ⦃u = plain⦄ (pos 50) (ask a_answers.resolved))
      ≡ graphql_fails (ask a_answers.resolved) default_max_pages none)
    × Gives
        (λ fs.
          fs
          ≡ map (finding_for ⦃u = plain⦄) (
              filter
                (wanted ⦃u = plain⦄ (pos 50))
                (graphql_items (ask a_answers.resolved) default_max_pages none)))
        (collect_resolved_findings ⦃u = plain⦄ (pos 50) (ask a_answers.resolved))
collect_resolved_findings_lem_example =
    collect_resolved_findings_lem ⦃u = plain⦄ (pos 50) (ask a_answers.resolved)

-- What the pages hold.
grp_counts : mrs_of "grp/a" (projects_read grp grp_answers) (mrs_read grp grp_answers) 0 ≡ 2
unfolding rest_items get_page group_projects_path path_escape group_mrs_path
grp_counts = refl

-- A header that is no number gives no reading, and a page that is throttled is an error.
throttled :
    failed
      (get_page (
        ok (record {
          status = 429;
          rate_limit_remaining = "none";
          retry_after = "60";
          next_page = "2";
          body = ok "[]";
        }))).body
    ≡ true
unfolding get_page
throttled = refl
