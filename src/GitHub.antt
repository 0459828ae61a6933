-- ===== src/GitHub.antt =====
-- internal/provider/github: what the calls of the REST and GraphQL clients become. The clients are
-- go-github and net/http; their answers are arguments, a function of the page that is asked for.
pub mod Resolved
pub mod Recent
pub mod Repo
pub mod Collect
pub mod Partial
pub mod Whole
pub mod Merge
pub mod Owner
use scm_metrics_exporter.Prelude.{
  ℕ, zero, suc, String, Bool, true, false, not, ◌&&◌, ◌||◌, Option, none, some, List, [], ◌∷◌, ◌++◌,
  map, ◌+◌, if◌then◌else◌, ◌==◌, nat_eq, string_eq,
}
use scm_metrics_exporter.Prelude.Int.{ℤ, pos}
use scm_metrics_exporter.Prelude.Assoc.{Map, adjust}
use scm_metrics_exporter.Prelude.Errors.{
  Error, Errors, canceled, message, rate_limit, abuse_rate_limit, response, wrap, joined, nil, cons,
  has, Result, ok, err,
}
use scm_metrics_exporter.Prelude.Text.{Unicode, to_lower}
use scm_metrics_exporter.Provider.{
  Finding, WorkflowRunStat, category_static_analysis, category_secret, severity_unknown,
}
use scm_metrics_exporter.Provider.Severity.{normalize_severity}
use scm_metrics_exporter.Provider.Tally.{Tally, workflow_run_stats_from_tally}

abbrev pub default_max_pages : ℕ
default_max_pages = 100

-- What a go-github response carries; page 0 says that there is no next page.
pub record Response : Type 0 where
  pub remaining : ℤ
  pub next_page : ℕ

-- One page of a listing, or an error, with the response if there is one.
pub record Reply (A : Type 0) : Type 0 where
  pub items : Result (List A)
  pub reply : Option Response

-- The next page to ask for.
abbrev pub following : Option Response → Option ℕ
following none = none
following (some r) = if r.next_page == 0 then none else some r.next_page

pub record Rule : Type 0 where
  pub security_severity_level : Option String
  pub severity : Option String

-- A code scanning alert. An instant that is absent is the zero time.
pub record Alert : Type 0 where
  pub number : ℤ
  pub rule : Option Rule
  pub tool : String
  pub created_at : ℤ
  pub fixed_at : ℤ
  pub dismissed_at : ℤ
  pub dismissed_reason : String

pub record SecretAlert : Type 0 where
  pub number : ℤ
  pub created_at : ℤ
  pub resolved_at : ℤ
  pub resolution : String

-- The tests of `errors.As` at one error.
abbrev is_limit_here : Error → Bool
is_limit_here rate_limit = true
is_limit_here abuse_rate_limit = true
is_limit_here _ = false

unfoldable pub is_rate_limit : Error → Bool
unfolding has
is_rate_limit e = has is_limit_here e

-- The status code of the first *ErrorResponse that `errors.As` finds.
unfoldable mutual
  pub first_response : Error → Option ℕ
  first_response (response n) = some n
  first_response (wrap s e) = first_response e
  first_response (joined es) = first_response_of es
  first_response canceled = none
  first_response (message s) = none
  first_response rate_limit = none
  first_response abuse_rate_limit = none

  pub first_response_of : Errors → Option ℕ
  first_response_of nil = none
  first_response_of (cons e es) =
      let later = first_response_of es in elim (first_response e) [ some n ↦ some n | none ↦ later ]

abbrev refusal : Option ℕ → Bool
refusal none = false
refusal (some n) = n == 403 || n == 404

unfoldable pub not_accessible : Error → Bool
unfolding is_rate_limit first_response
not_accessible e = if is_rate_limit e then false else refusal (first_response e)

unfoldable pub code_scanning_severity : Option Rule → String
code_scanning_severity none = ""
code_scanning_severity (some r) = elim r.security_severity_level [
  | some level ↦ level
  | none ↦ (elim r.severity [ some s ↦ s | none ↦ "" ])
]

unfoldable pub secret_finding : SecretAlert → Finding
secret_finding a = record {
  severity = severity_unknown;
  category = category_secret;
  ecosystem = "";
  tool = "";
  created_at = a.created_at;
}

-- What a per-repository listing of open alerts returns.
pub record Scan : Type 0 where
  pub findings : List Finding
  pub rate : Option ℤ
  pub accessible : Bool
  pub error : Option Error

-- The latest rate reading.
abbrev pub rate_after : Option ℤ → Option Response → Option ℤ
rate_after rate none = rate
rate_after rate (some r) = some r.remaining

-- A page that failed ends the listing.
unfoldable pub scan_failed : List Finding → Option ℤ → Error → Scan
unfolding is_rate_limit not_accessible
scan_failed fs rate e =
    let failure : Scan = record {
      findings = fs;
      rate = rate;
      accessible = false;
      error = some e;
    } in
    if is_rate_limit e
    then failure
    else if not_accessible e
    then record failure { error = none }
    else failure

abbrev scan_done : List Finding → Option ℤ → Scan
scan_done fs rate = record { findings = fs; rate = rate; accessible = true; error = none }

module _ {A : Type 0} (finding : A → Finding) (page : ℕ → Reply A) where
  -- The loop over the pages, of which at most `fuel` are read.
  unfoldable pub scan_pages : (fuel current : ℕ) → List Finding → Option ℤ → Scan
  unfolding scan_failed
  scan_pages zero current fs rate = scan_done fs rate
  scan_pages (suc fuel) current fs rate =
      let reply = page current in
      let rate = rate_after rate reply.reply in
      elim reply.items [
        | err e ↦ scan_failed fs rate e
        | ok alerts ↦
            let fs = fs ++ map finding alerts in
            elim (following reply.reply) [
              | none ↦ scan_done fs rate
              | some next ↦ scan_pages fuel next fs rate
            ]
      ]

unfoldable pub secret_scanning_for_repo : (ℕ → Reply SecretAlert) → Scan
unfolding scan_pages
secret_scanning_for_repo page = scan_pages secret_finding page default_max_pages 0 [] none

-- A workflow run: its workflow's name and its conclusion, empty for one that is in progress.
pub record WorkflowRun : Type 0 where
  pub name : String
  pub conclusion : String

module _ ⦃u : Unicode⦄ where
  unfoldable pub code_scanning_finding : Alert → Finding
  unfolding code_scanning_severity
  code_scanning_finding a = record {
    severity = normalize_severity (code_scanning_severity a.rule);
    category = category_static_analysis;
    ecosystem = "";
    tool = a.tool;
    created_at = a.created_at;
  }

  unfoldable pub code_scanning_for_repo : (ℕ → Reply Alert) → Scan
  unfolding scan_pages
  code_scanning_for_repo page = scan_pages code_scanning_finding page default_max_pages 0 [] none

  unfoldable pub tally_run : WorkflowRun → Tally → Tally
  tally_run run tally =
      let conclusion = to_lower run.conclusion in
      let name = if run.name == "" then "unknown" else run.name in
      if conclusion == "" then tally else adjust [] (adjust 0 (λ n. n + 1) conclusion) name tally

  unfoldable pub tally_runs : List WorkflowRun → Tally → Tally
  unfolding tally_run
  tally_runs [] tally = tally
  tally_runs (run ∷ runs) tally = tally_runs runs (tally_run run tally)

  module _ (page : ℕ → Reply WorkflowRun) where
    unfoldable pub tally_pages : (fuel current : ℕ) → Tally → Result Tally
    unfolding tally_runs
    tally_pages zero current tally = ok tally
    tally_pages (suc fuel) current tally = elim (page current).items [
      | err e ↦ err e
      | ok runs ↦
          let tally = tally_runs runs tally in
          elim (following (page current).reply) [
            | none ↦ ok tally
            | some next ↦ tally_pages fuel next tally
          ]
    ]

    unfoldable pub collect_workflow_runs : Result (List WorkflowRunStat)
    unfolding tally_pages
    collect_workflow_runs = elim (tally_pages default_max_pages 0 []) [
      | err e ↦ err e
      | ok tally ↦ ok (workflow_run_stats_from_tally tally)
    ]
