-- ===== src/Exporter.antt =====
-- cmd/exporter/main.go: run-once mode and continuous mode of the exporter. What the constructors
-- of the providers, NewValkey and metrics.Setup answer are arguments.
pub mod Once
use scm_metrics_exporter.Prelude.{
  ℕ, String, Bool, true, false, not, ◌&&◌, Option, none, some, List, [], ◌∷◌, if◌then◌else◌, ◌==◌,
  string_eq,
}
use scm_metrics_exporter.Prelude.Int.{ℤ}
use scm_metrics_exporter.Prelude.Errors.{Error, message, Result, ok, err}
use scm_metrics_exporter.Prelude.Text.{Unicode}
use scm_metrics_exporter.Provider.{Snapshot, source_lifecycle}
use scm_metrics_exporter.Config.{Config, LifecycleConfig, Environment, load, target}
use scm_metrics_exporter.Collector.{
  Source, Entry, Collector, new, latest, on_scrape_error, poll_all, run,
}
use scm_metrics_exporter.Lifecycle.{RecordStore, record_snapshot}

-- The options of the providers' constructors that the program sets.
pub record GitHubOptions : Type 0 where
  pub token : String
  pub app_id : ℤ
  pub app_installation_id : ℤ
  pub app_private_key_path : String
  pub target_type : String
  pub repo_scope : String
  pub code_scanning_tool : String
  pub collect_workflows : Bool
  pub workflow_lookback : ℤ
  pub collect_lifecycle : Bool
  pub resolution_window : ℤ

pub record GitLabOptions : Type 0 where
  pub token : String
  pub target_type : String
  pub base_url : String
  pub collect_workflows : Bool
  pub workflow_lookback : ℤ
  pub collect_lifecycle : Bool
  pub resolution_window : ℤ

unfoldable pub github_options : Config → String → GitHubOptions
github_options cfg repo = record {
  token = cfg.github.token;
  app_id = cfg.github.app_id;
  app_installation_id = cfg.github.app_installation_id;
  app_private_key_path = cfg.github.app_private_key_path;
  target_type = cfg.github.target_type;
  repo_scope = repo;
  code_scanning_tool = cfg.github.code_scanning_tool;
  collect_workflows = cfg.github.collect_workflows;
  workflow_lookback = cfg.github.workflow_lookback;
  collect_lifecycle = cfg.lifecycle.enabled;
  resolution_window = cfg.lifecycle.resolution_window;
}

unfoldable pub gitlab_options : Config → GitLabOptions
gitlab_options cfg = record {
  token = cfg.gitlab.token;
  target_type = cfg.gitlab.target_type;
  base_url = cfg.gitlab.base_url;
  collect_workflows = cfg.gitlab.collect_workflows;
  workflow_lookback = cfg.gitlab.workflow_lookback;
  collect_lifecycle = cfg.lifecycle.enabled;
  resolution_window = cfg.lifecycle.resolution_window;
}

-- What the program calls: the constructors, whether NewValkey reaches a server at an address with a
-- password, the store at that server, and what metrics.Setup returns.
pub record Outside (W : Type 0) : Type 1 where
  pub new_github : GitHubOptions → Result (Source W)
  pub new_gitlab : GitLabOptions → Result (Source W)
  pub reachable : String → String → Bool
  pub store : RecordStore
  pub setup : Option Error

-- Whether the lifecycle store is open: never if it is not asked for.
unfoldable pub open_remediation_store : (String → String → Bool) → LifecycleConfig → Bool
open_remediation_store reachable l =
    if l.enabled then reachable l.valkey_addr l.valkey_password else false

module _ {W : Type 0} (out : Outside W) where
  open out.store use {State}

  -- The error of the process, the collector with its scrape errors, and the store.
  pub record Outcome : Type 0 where
    pub error : Option Error
    pub collector : Collector W
    pub store : State

  unfoldable pub build_provider : Config → String → Result (Source W)
  unfolding github_options gitlab_options
  build_provider cfg repo =
      if cfg.provider == "github"
      then out.new_github (github_options cfg repo)
      else if cfg.provider == "gitlab"
      then out.new_gitlab (gitlab_options cfg)
      else err (message "unknown provider (supported: github, gitlab)")

  abbrev pub entry_of : Config → String → Source W → Entry W
  entry_of cfg repo prov = record { provider = prov; target = target cfg; repo = repo }

  -- A store that is configured and unreachable is one scrape error.
  unfoldable pub note_unreachable : Config → Source W → Collector W → Collector W
  note_unreachable cfg prov c =
      if cfg.lifecycle.enabled && not (open_remediation_store out.reachable cfg.lifecycle)
      then on_scrape_error prov.name source_lifecycle c
      else c

  abbrev pub note_failure : String → Option Error → Collector W → Collector W
  note_failure name none c = c
  note_failure name (some e) c = on_scrape_error name source_lifecycle c

  -- The resolved findings of the latest snapshot go to the store.
  unfoldable pub record_latest : Config → String → Collector W → State → Collector W × State
  record_latest cfg name c s = elim (latest name c) [
    | none ↦ (c, s)
    | some snap ↦
        let (failure, s) =
          record_snapshot out.store name cfg.lifecycle.resolution_window cfg.dimensions.severity
            snap s in
        (note_failure name failure c, s)
  ]

  -- Run-once mode, from the collector on.
  unfoldable pub poll_once : Config → String → Source W → Collector W → State → Outcome
  unfolding open_remediation_store note_unreachable
  poll_once cfg repo prov c s =
      let (failure, c) = poll_all (entry_of cfg repo prov ∷ []) (note_unreachable cfg prov c) in
      let (recorded, s') = record_latest cfg prov.name c s in
      if open_remediation_store out.reachable cfg.lifecycle
      then record { error = failure; collector = recorded; store = s' }
      else record { error = failure; collector = c; store = s }

  -- Continuous mode: the polls at the start and at each tick before the context ends.
  unfoldable pub poll_forever : Config → String → Source W → ℕ → Collector W → State → Outcome
  unfolding note_unreachable
  poll_forever cfg repo prov ticks c s = record {
    error = none;
    collector = run (entry_of cfg repo prov ∷ []) ticks (note_unreachable cfg prov c);
    store = s;
  }

  abbrev pub stopped : Error → W → State → Outcome
  stopped e w s = record { error = some e; collector = new w; store = s }

  module _ ⦃u : Unicode⦄ where
    -- `run`: the polls follow the settings and the constructors, and none happens if these fail.
    unfoldable pub run_exporter :
        Environment
        → (provider_name : String) → (once : Bool) → (repo : String) → (ticks : ℕ) → W
        → State
        → Outcome
    unfolding build_provider poll_once poll_forever
    run_exporter env name once repo ticks w s = elim (load env name) [
      | err e ↦ stopped e w s
      | ok cfg ↦ (elim (build_provider cfg repo) [
        | err e ↦ stopped e w s
        | ok prov ↦ (elim out.setup [
          | some e ↦ stopped e w s
          | none ↦
              if once
              then poll_once cfg repo prov (new w) s
              else poll_forever cfg repo prov ticks (new w) s
        ])
      ])
    ]
