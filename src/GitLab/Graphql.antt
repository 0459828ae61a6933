-- ===== src/GitLab/Graphql.antt =====
-- The pages of the GraphQL API (graphql.go): vulnerabilities and posture of a group's projects.

use scm_metrics_exporter.Prelude.{
  ℕ, zero, suc, String, Bool, ◌&&◌, Option, none, some, List, [], ◌∷◌, ◌++◌, any, is_empty,
  if◌then◌else◌, ◌==◌, nat_eq, string_eq,
}
use scm_metrics_exporter.Prelude.Int.{ℤ, pos}
use scm_metrics_exporter.Prelude.Assoc.{Map, lookup, adjust, insert}
use scm_metrics_exporter.Prelude.Errors.{Error, message, wrap, Result, ok, err}
use scm_metrics_exporter.Prelude.Text.{Unicode, to_lower, equal_fold}
use scm_metrics_exporter.Provider.{
  Finding, RepoPosture, category_static_analysis, category_dependency, category_secret,
  category_container,
}
use scm_metrics_exporter.Provider.Severity.{normalize_severity}
use scm_metrics_exporter.GitLab.{
  HttpResponse, rate_header, Swept, swept, later_rate, default_max_pages,
}

abbrev scanner_dependency_scanning : String
scanner_dependency_scanning = "DEPENDENCY_SCANNING"

abbrev scanner_secret_detection : String
scanner_secret_detection = "SECRET_DETECTION"

abbrev report_type_category : Map String String
report_type_category =
    ("SAST", category_static_analysis)
    ∷ ("DEPENDENCY_SCANNING", category_dependency)
    ∷ ("SECRET_DETECTION", category_secret)
    ∷ ("CONTAINER_SCANNING", category_container)
    ∷ ("CLUSTER_IMAGE_SCANNING", category_container)
    ∷ ("CONTAINER_SCANNING_FOR_REGISTRY", category_container)
    ∷ []

-- The category of a report type, if it is one that the program counts.
unfoldable pub category_of : String → Option String
unfolding lookup
category_of report_type = lookup report_type report_type_category

-- A page of a connection.
pub record Connection (A : Type 0) : Type 0 where
  pub nodes : List A
  pub has_next_page : Bool
  pub end_cursor : String

-- A decoded answer; the connection is none if the group, the project or the field is null.
pub record Envelope (A : Type 0) : Type 0 where
  pub connection : Option (Connection A)
  pub errors : List String

-- What post returns: the decoded answer and the rate reading.
pub record Posted (A : Type 0) : Type 0 where
  pub answer : Result A
  pub rate : Option ℤ

abbrev parsed : {A : Type 0} → Result A → Result A
parsed (err e) = err (wrap "gitlab graphql: decode response" e)
parsed (ok a) = ok a

abbrev decoded : {A : Type 0} → (String → Result A) → ℕ → Result String → Result A
decoded decode status (err e) = err (wrap "gitlab graphql: read response" e)
decoded decode status (ok body) =
    if status == 200 then parsed (decode body) else err (message "gitlab graphql: http status")

unfoldable pub post : {A : Type 0} → (String → Result A) → Result HttpResponse → Posted A
unfolding rate_header
post decode (err e) = record { answer = err (wrap "gitlab graphql: do request" e); rate = none }
post decode (ok r) = record {
  answer = decoded decode r.status r.body;
  rate = rate_header r.rate_limit_remaining;
}

-- A query of the API: the answer for a cursor, and what encoding/json makes of its body.
pub record Query (A : Type 0) : Type 0 where
  pub send : Option String → Result HttpResponse
  pub decode : String → Result (Envelope A)

unfoldable pub ask : {A : Type 0} → Query A → Option String → Posted (Envelope A)
unfolding post
ask q after = post q.decode (q.send after)

module _ {A S : Type 0} (step : S → List A → S) (missing : Option Error) where
  -- The loops over `after`: at most `fuel` pages. A connection that is missing ends the loop, with
  -- an error if the caller takes it for one.
  unfoldable pub graphql_pages :
      (query : Option String → Posted (Envelope A))
      → (fuel : ℕ) → Option String
      → S
      → Option ℤ
      → Swept S
  graphql_pages query zero after s rate = swept s rate none
  graphql_pages query (suc fuel) after s rate =
      let p = query after in
      let rate = later_rate rate p.rate in
      elim p.answer [
        | err e ↦ swept s rate (some e)
        | ok a ↦
            let found : Swept S = elim a.connection [
              | none ↦ swept s rate missing
              | some c ↦
                  let s = step s c.nodes in
                  let next = graphql_pages query fuel (some c.end_cursor) s rate in
                  if c.has_next_page then next else swept s rate none
            ] in
            if is_empty a.errors
            then found
            else swept s rate (some (message "gitlab graphql errors"))
      ]

-- A finding as the API lists it; an instant that is no RFC 3339 text is none.
pub record Vulnerability : Type 0 where
  pub severity : String
  pub report_type : String
  pub scanner : String
  pub full_path : String
  pub detected_at : Option ℤ

abbrev pub parse_gitlab_time : Option ℤ → ℤ
parse_gitlab_time none = pos 0
parse_gitlab_time (some t) = t

pub record BranchRule : Type 0 where
  pub is_default : Bool
  pub is_protected : Bool

pub record ProjectNode : Type 0 where
  pub full_path : String
  pub visibility : String
  pub archived : Bool
  pub security_scanners : Option (List String)
  pub branch_rules : Option (List BranchRule)

abbrev unavailable : Option Error
unavailable = some (message "gitlab graphql: unavailable")

abbrev or_nothing : {A : Type 0} → Option (List A) → List A
or_nothing none = []
or_nothing (some xs) = xs

module _ ⦃u : Unicode⦄ where
  unfoldable pub vulnerability_finding : Vulnerability → Option Finding
  unfolding category_of
  vulnerability_finding n = elim (category_of n.report_type) [
    | none ↦ none
    | some category ↦ some (record {
      severity = normalize_severity n.severity;
      category = category;
      ecosystem = "";
      tool = n.scanner;
      created_at = parse_gitlab_time n.detected_at;
    })
  ]

  abbrev pub add_finding :
      String → Option Finding → Map String (List Finding) → Map String (List Finding)
  add_finding path none m = m
  add_finding path (some f) m = adjust [] (λ fs. fs ++ f ∷ []) path m

  unfoldable pub map_vulnerabilities :
      Map String (List Finding) → List Vulnerability → Map String (List Finding)
  unfolding vulnerability_finding
  map_vulnerabilities m [] = m
  map_vulnerabilities m (n ∷ ns) =
      map_vulnerabilities (add_finding n.full_path (vulnerability_finding n) m) ns

  unfoldable pub collect_vulnerabilities :
      (Option String → Posted (Envelope Vulnerability)) → Swept (Map String (List Finding))
  unfolding graphql_pages
  collect_vulnerabilities query =
      graphql_pages map_vulnerabilities unavailable query default_max_pages none [] none

  -- Visibility, archived, enabled scanners, and a rule that protects the default branch.
  unfoldable pub project_posture :
      String → Bool → Option (List String) → Option (List BranchRule) → RepoPosture
  project_posture visibility archived scanners rules = record {
    visibility = to_lower visibility;
    archived = archived;
    dependabot_enabled = any (λ s. equal_fold s scanner_dependency_scanning) (or_nothing scanners);
    branch_protected = any (λ r. r.is_default && r.is_protected) (or_nothing rules);
    secret_scanning_enabled =
        any (λ s. equal_fold s scanner_secret_detection) (or_nothing scanners);
  }

  unfoldable pub map_project_posture :
      Map String RepoPosture → List ProjectNode → Map String RepoPosture
  unfolding project_posture
  map_project_posture m [] = m
  map_project_posture m (n ∷ ns) =
      let p = project_posture n.visibility n.archived n.security_scanners n.branch_rules in
      map_project_posture (insert n.full_path p m) ns

  unfoldable pub collect_project_posture :
      (Option String → Posted (Envelope ProjectNode)) → Swept (Map String RepoPosture)
  unfolding graphql_pages
  collect_project_posture query =
      graphql_pages map_project_posture unavailable query default_max_pages none [] none
