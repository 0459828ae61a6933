-- ===== src/Examples/Controller.antt =====
-- Examples about internal/controller, on a cluster that keeps its Jobs in a list.
use scm_metrics_exporter.Prelude.{
  ℕ, ◌+◌, contains, ◌≤◌, String, ◌≡◌, refl, ◌⊎◌, inl, inr, Bool, true, false, ◌&&◌, Option, none,
  List, [], ◌∷◌, ◌++◌, All, filter, count, if◌then◌else◌, string_eq, Bool-cases, arith,
}
use scm_metrics_exporter.Prelude.Int.{ℤ, pos, ◌+ℤ◌, ◌-ℤ◌, ◌≤ℤ◌, sub_time, saturate, max_int64}
use scm_metrics_exporter.Prelude.Text.{plain, to_lower, lower_rune, ascii_lower}
use scm_metrics_exporter.Prelude.Errors.{Error, Result, ok}
use scm_metrics_exporter.Api.{ExporterSpec, ExporterStatus, GitHubSpec, Resource, RepoFilter, found}
use scm_metrics_exporter.Discovery.{Budget}
use scm_metrics_exporter.Controller.Cluster.{
  Cluster, IsCluster, created, already_exists, exists_key, selects, is_active,
}
use scm_metrics_exporter.Controller.Common.{rate_limit_buffer}
use scm_metrics_exporter.Controller.Render.{Job, github_job, collection_job, selector_labels}
use scm_metrics_exporter.Controller.Rendered.{github_job-selected}
use scm_metrics_exporter.Prelude.Assoc.{lookup}
use scm_metrics_exporter.Controller.Names.{
  job_name, sanitize_name, replace, trim_start, trim_end, prefix, hex, fnv, fnv_step, xor, bytes,
  utf8, sum32a,
}
use scm_metrics_exporter.Controller.Names.Valid.{text_length, Allowed, Begins, Ends, job_name_lem}
use scm_metrics_exporter.Controller.Dispatch.{dispatch_jobs, dispatch_loop}
use scm_metrics_exporter.Controller.Dispatch.Cap.{
  shown_active, shown_names, dispatch_jobs_cap, dispatch_jobs_complete,
}
use scm_metrics_exporter.Controller.Reconcile.{Kind, GitHubAuth, github_kind, reconcile_cr}
use scm_metrics_exporter.Controller.Reconcile.Outcomes.{reconcile_cr_cap, active_jobs}

abbrev listing : Cluster
listing = record {
  State = List Job;
  list_jobs = λ namespace sel js. ok (filter (selects namespace sel) js);
  create = λ j js. if exists_key j js then (already_exists, js) else (created, js ++ j ∷ []);
  get_secret = λ namespace name js. found (("token", "t") ∷ ("key", "pem") ∷ []);
  jobs = λ js. js;
}

listing-IsCluster : IsCluster listing
listing-IsCluster = record {
  creates =
      λ j s. elim (Bool-cases (exists_key j s)) [ inl e ↦ rw e (e, refl) | inr e ↦ rw e (e, refl) ];
}

abbrev no_filter : RepoFilter
no_filter = record { topics = []; visibility = []; name_patterns = []; archived = none }

abbrev spec : ExporterSpec
spec = record {
  discovery_interval = pos 900_000_000_000;
  parallelism = pos 2;
  rate_limit_threshold = pos 200;
  image = "";
  resources = [];
  volumes = [];
  volume_mounts = [];
  env = [];
  otlp_endpoint = "http://otel:4318";
  auto_discover = record { include = no_filter; exclude = no_filter };
  finding_dimensions = [];
  collect_workflows = false;
  workflow_lookback = pos 0;
  credentials_secret = "creds";
  collect_lifecycle = false;
  resolution_window = pos 0;
  valkey = none;
}

abbrev status : ExporterStatus
status = record {
  observed_generation = 0;
  discovered_repositories = [];
  last_discovery_time = none;
  condition = none;
}

abbrev acme : Resource GitHubSpec
acme = record {
  name = "acme";
  namespace = "scm";
  generation = 1;
  spec = record {
    exporter = spec;
    target_type = "org";
    org = "acme";
    user = "";
    auth_mode = "app";
    token_key = "";
    app_id = pos 7;
    app_installation_id = pos 9;
    app_private_key_key = "key";
    code_scanning_tool = "";
  };
  status = status;
}

abbrev no_owner_error : Job → Option Error
no_owner_error j = none

abbrev acme_job : String → Job
acme_job = github_job ⦃u = plain⦄ acme "exporter:1"

abbrev repos : List String
repos = "a" ∷ "b" ∷ "c" ∷ []

abbrev dispatched : List String → Result Bool × List Job
dispatched names = dispatch_jobs listing no_owner_error acme_job (pos 2) "acme" "scm" names []

acme_job-selected :
    (repo : String)
    → (selects "scm" (selector_labels "acme") (acme_job repo) && is_active (acme_job repo)) ≡ true
acme_job-selected = github_job-selected ⦃u = plain⦄ acme "exporter:1"

abbrev active : List Job → ℕ
active js = count (λ j. selects "scm" (selector_labels "acme") j && is_active j) js

dispatch_jobs_cap_example :
    (active (dispatched repos).1 ≤ active [])
    ⊎ (pos (active (dispatched repos).1 + shown_active listing "acme" "scm" [])
        ≤ℤ pos 2 +ℤ pos (active []))
dispatch_jobs_cap_example =
    dispatch_jobs_cap listing listing-IsCluster no_owner_error acme_job (pos 2) "acme" "scm"
      acme_job-selected repos []

two_complete : (dispatched ("a" ∷ "b" ∷ [])).0 ≡ ok false
unfolding dispatch_jobs dispatch_loop github_job collection_job selector_labels job_name
    sanitize_name replace trim_start trim_end prefix hex fnv fnv_step xor bytes utf8 sum32a to_lower
    lower_rune ascii_lower lookup
two_complete = refl

dispatch_jobs_complete_example :
    All
      (λ repo.
        (contains (shown_names listing "acme" "scm" []) (acme_job repo).name ≡ true)
        ⊎ (exists_key (acme_job repo) (dispatched ("a" ∷ "b" ∷ [])).1 ≡ true))
      ("a" ∷ "b" ∷ [])
dispatch_jobs_complete_example =
    dispatch_jobs_complete listing listing-IsCluster no_owner_error acme_job (pos 2) "acme" "scm"
      acme_job-selected ("a" ∷ "b" ∷ []) [] two_complete

three-pending : (dispatched repos).0 ≡ ok true
unfolding dispatch_jobs dispatch_loop github_job collection_job selector_labels job_name
    sanitize_name replace trim_start trim_end prefix hex fnv fnv_step xor bytes utf8 sum32a to_lower
    lower_rune ascii_lower lookup
three-pending = refl

abbrev plenty : GitHubAuth → Result Budget
plenty auth = ok (record { remaining = pos 5000; reset = pos 0; known = true })

-- A cluster whose lists never show a Job.
abbrev stale : Cluster
stale = record listing { list_jobs = λ namespace sel js. ok [] }

stale-IsCluster : IsCluster stale
stale-IsCluster = record { creates = listing-IsCluster.creates }

abbrev acme_kind : Kind GitHubSpec GitHubAuth
acme_kind = github_kind ⦃u = plain⦄ plenty (λ auth owner target sel. ok ("a" ∷ "b" ∷ []))

abbrev pass : Result ℤ × List Job
pass =
    reconcile_cr stale no_owner_error acme_kind "exporter:1" (λ js. found acme)
      (λ cr js. (none, js)) (pos 1000) acme (acme_job "a" ∷ [])

reconcile_cr_cap_example :
    (active_jobs acme pass.1 ≤ active_jobs acme (acme_job "a" ∷ []))
    ⊎ (pos (active_jobs acme pass.1 + shown_active stale "acme" "scm" (acme_job "a" ∷ []))
        ≤ℤ pos 2 +ℤ pos (active_jobs acme (acme_job "a" ∷ [])))
reconcile_cr_cap_example =
    reconcile_cr_cap stale no_owner_error acme_kind "exporter:1" (λ js. found acme)
      (λ cr js. (none, js)) (pos 1000) stale-IsCluster (λ cr js. refl)
      (λ cr image repo. github_job-selected ⦃u = plain⦄ cr image repo) acme (acme_job "a" ∷ [])

in_range : sub_time (pos 60_000_000_000) (pos 0) +ℤ rate_limit_buffer ≤ℤ max_int64
unfolding sub_time saturate ◌-ℤ◌ ◌+ℤ◌
in_range = omega arith

job_name_lem_example :
    let name = job_name ⦃u = plain⦄ "acme" "Web.App" in
    (text_length name ≤ 63) × Allowed name × Begins name × Ends name
job_name_lem_example = job_name_lem ⦃u = plain⦄ "acme" "Web.App"

-- A third active Job where two are allowed, if the list does not show those that there are.
stale_exceeds :
    active
      (dispatch_jobs stale no_owner_error acme_job
        (pos 2)
        "acme"
        "scm"
        ("c" ∷ [])
        (acme_job "a" ∷ (acme_job "b" ∷ []))).1
    ≡ 3
unfolding dispatch_jobs dispatch_loop github_job collection_job selector_labels job_name
    sanitize_name replace trim_start trim_end prefix hex fnv fnv_step xor bytes utf8 sum32a to_lower
    lower_rune ascii_lower lookup
stale_exceeds = refl

-- Two repositories of one resource that have the same Job name.
same_job_name :
    job_name ⦃u = plain⦄ "acme" "a...._.___.-b" ≡ job_name ⦃u = plain⦄ "acme" "a_..---_--..b"
unfolding job_name sanitize_name replace trim_start trim_end prefix hex fnv fnv_step xor bytes utf8
    sum32a to_lower lower_rune ascii_lower
same_job_name = refl
