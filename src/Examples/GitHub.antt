-- ===== src/Examples/GitHub.antt =====
-- Examples about internal/provider/github: a repository whose code scanning is rate limited.
use scm_metrics_exporter.Prelude.{
  ℕ, String, ◌≡◌, refl, true, false, ◌&&◌, none, some, List, [], ◌∷◌, ◌++◌, if◌then◌else◌, ◌==◌,
  nat_eq, string_eq,
}
use mathlib.Core.List.{Perm}
use scm_metrics_exporter.Prelude.Assoc.{Map}
use scm_metrics_exporter.Prelude.Int.{ℤ, pos}
use scm_metrics_exporter.Prelude.Errors.{
  rate_limit, response, wrap, ok, err, failed, is_some, Gives,
}
use scm_metrics_exporter.Prelude.Text.{plain}
use scm_metrics_exporter.GitHub.{
  Reply, Alert, SecretAlert, code_scanning_for_repo, secret_scanning_for_repo, not_accessible,
  code_scanning_finding, secret_finding, default_max_pages,
}
use scm_metrics_exporter.GitHub.Repo.{RepoNode, collect_repo_graphql}
use scm_metrics_exporter.GitHub.Collect.{
  Answers, Settings, snapshot_repo, workflow_runs, resolved_findings,
}
use scm_metrics_exporter.GitHub.Partial.{reported, snapshot_repo_lem}
use scm_metrics_exporter.Provider.{Finding}
use scm_metrics_exporter.Provider.Merge.{row_of, findings_of}
use scm_metrics_exporter.Provider.Merge.Findings.{under_map}
use scm_metrics_exporter.Provider.Sources.{source_error}
use scm_metrics_exporter.Provider.{source_graphql, source_rest, source_secret_scanning}
use scm_metrics_exporter.GitHub.Merge.{under_repos}
use scm_metrics_exporter.GitHub.Owner.{collect_graphql}
use scm_metrics_exporter.GitHub.Owner.Pages.{of_repo, pages_read}
use scm_metrics_exporter.GitHub.Owner.Failures.{query_fails, repos_read, code_fails, secret_fails}
use scm_metrics_exporter.GitHub.Owner.Poll.{
  OwnerAnswers, collect_code_scanning, collect_secret_scanning, snapshot,
}
use scm_metrics_exporter.GitHub.Owner.Whole.{snapshot_lem, snapshot_of_org}
use scm_metrics_exporter.GitHub.Whole.{IsAbout, IsWhole, snapshot_repo-IsWhole}

abbrev web : RepoNode
web = record {
  name = "web";
  is_archived = false;
  visibility = "PRIVATE";
  has_vulnerability_alerts_enabled = true;
  default_branch_ref = none;
  pull_requests = 3;
  vulnerability_alerts =
      record { severity = "MODERATE"; ecosystem = "NPM"; created_at = some (pos 5) } ∷ [];
}

abbrev leaked : ℤ → SecretAlert
leaked resolved_at = record {
  number = pos 7;
  created_at = pos 2;
  resolved_at = resolved_at;
  resolution = "revoked";
}

-- Code scanning is rate limited, secret scanning has one alert, Dependabot is disabled, and the
-- listing of workflow runs fails.
abbrev web_answers : Answers
web_answers = record {
  graphql = ok (record { repository = some web; remaining = pos 4000; errors = [] });
  code = λ _ _. record {
    items = err rate_limit;
    reply = some (record { remaining = pos 0; next_page = 0 });
  };
  secret = λ state _. record {
    items = ok (leaked (if state == "open" then pos 0 else pos 90) ∷ []);
    reply = none;
  };
  dependabot = λ _ _. record { items = err (response 403); reply = none };
  runs = λ _. record { items = err (response 500); reply = none };
  secret_scanning_status = ok "enabled";
}

abbrev both : Settings
both = record { collect_workflows = true; collect_lifecycle = true; since = pos 50 }

snapshot_repo_lem_example :
    (failed (snapshot_repo ⦃u = plain⦄ both web_answers "web") ≡ (
      failed (collect_repo_graphql ⦃u = plain⦄ web_answers.graphql).repo
      && (is_some (code_scanning_for_repo ⦃u = plain⦄ (web_answers.code "open")).error
          && is_some (secret_scanning_for_repo (web_answers.secret "open")).error)))
    × Gives
        (λ s.
          s.source_errors
          ≡ reported
              (failed (collect_repo_graphql ⦃u = plain⦄ web_answers.graphql).repo)
              (is_some (code_scanning_for_repo ⦃u = plain⦄ (web_answers.code "open")).error)
              (is_some (secret_scanning_for_repo (web_answers.secret "open")).error)
              (both.collect_workflows && failed (workflow_runs ⦃u = plain⦄ both web_answers))
              (both.collect_lifecycle && failed (resolved_findings ⦃u = plain⦄ both web_answers)))
        (snapshot_repo ⦃u = plain⦄ both web_answers "web")
snapshot_repo_lem_example = snapshot_repo_lem ⦃u = plain⦄ both web_answers "web"

web-IsAbout : IsAbout "web" (collect_repo_graphql ⦃u = plain⦄ web_answers.graphql).repo
unfolding collect_repo_graphql
web-IsAbout = refl

snapshot_repo-IsWhole_example :
    Gives
      (IsWhole "web"
        (collect_repo_graphql ⦃u = plain⦄ web_answers.graphql).repo
        (code_scanning_for_repo ⦃u = plain⦄ (web_answers.code "open"))
        (secret_scanning_for_repo (web_answers.secret "open")))
      (snapshot_repo ⦃u = plain⦄ both web_answers "web")
snapshot_repo-IsWhole_example = snapshot_repo-IsWhole ⦃u = plain⦄ both web_answers "web" web-IsAbout

abbrev smell : Alert
smell = record {
  number = pos 3;
  rule = none;
  tool = "CodeQL";
  created_at = pos 4;
  fixed_at = pos 0;
  dismissed_at = pos 0;
  dismissed_reason = "";
}

-- Code scanning is disabled here, so that two sources are left.
abbrev quiet : String → ℕ → Reply Alert
quiet _ _ = record { items = err (response 404); reply = none }

-- The first response in a chain of wrapped errors decides, and a rate limit is never a refusal.
forbidden : not_accessible (wrap "list" (response 403)) ≡ true
unfolding not_accessible
forbidden = refl

limited : not_accessible (wrap "list" rate_limit) ≡ false
unfolding not_accessible
limited = refl

-- An organization of one repository, whose code scanning breaks off at its second page.
abbrev org_answers : OwnerAnswers
org_answers = record {
  graphql = λ _. ok (record {
    nodes = web ∷ [];
    has_next_page = false;
    end_cursor = "";
    remaining = pos 4000;
    errors = [];
  });
  user_repos = λ _. record { items = err (response 500); reply = none };
  org_code = λ n.
      if n == 0
      then record {
        items = ok (
            record { repository = "web"; alert = smell }
            ∷ record { repository = ""; alert = smell }
            ∷ []);
        reply = some (record { remaining = pos 9; next_page = 2 });
      }
      else record { items = err (response 500); reply = none };
  org_secret = λ _. record {
    items = ok (record { repository = "api"; alert = leaked (pos 0) } ∷ []);
    reply = none;
  };
  repo_code = λ _. quiet "open";
  repo_secret = λ _. web_answers.secret "open";
}

snapshot_lem_example :
    let gql = query_fails org_answers.graphql default_max_pages none in
    let cs = code_fails ⦃u = plain⦄ "org" org_answers in
    let ss = secret_fails ⦃u = plain⦄ "org" org_answers in
    (failed (snapshot ⦃u = plain⦄ "org" org_answers) ≡ (gql && (cs && ss)))
    × Gives
        (λ s.
          (s.source_errors
            ≡ source_error gql source_graphql
              ++ (source_error cs source_rest ++ source_error ss source_secret_scanning))
          × ((n : String)
              → Perm (findings_of (row_of n s.repos)) (
                  under_repos n (repos_read ⦃u = plain⦄ org_answers.graphql default_max_pages none)
                  ++ (under_map n (collect_code_scanning ⦃u = plain⦄ "org" org_answers).findings
                      ++ (under_map n (collect_secret_scanning "org" org_answers).findings
                          ++ [])))))
        (snapshot ⦃u = plain⦄ "org" org_answers)
snapshot_lem_example = snapshot_lem ⦃u = plain⦄ "org" org_answers

snapshot_of_org_example :
    Gives
      (λ s. Perm (findings_of (row_of "web" s.repos)) (
        under_repos "web" (collect_graphql ⦃u = plain⦄ org_answers.graphql).repos
        ++ (of_repo
              (code_scanning_finding ⦃u = plain⦄)
              "web"
              (pages_read org_answers.org_code default_max_pages 0)
            ++ of_repo secret_finding "web"
                (pages_read org_answers.org_secret default_max_pages 0))))
      (snapshot ⦃u = plain⦄ "org" org_answers)
snapshot_of_org_example = snapshot_of_org ⦃u = plain⦄ "org" org_answers "web" refl refl

abbrev two_maps : List (Map String (List Finding))
two_maps =
    (("web", secret_finding (leaked (pos 0)) ∷ []) ∷ [])
    ∷ (("api", secret_finding (leaked (pos 0)) ∷ []) ∷ [])
    ∷ []
