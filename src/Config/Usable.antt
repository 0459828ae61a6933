-- ===== src/Config/Usable.antt =====
-- What a configuration that internal/config accepts is good for.
use scm_metrics_exporter.Prelude.{
  String, ◌≡◌, refl, subst, inl, inr, Bool, true, false, not, ◌&&◌, ◌||◌, Option, none, some, ◌==◌,
  string_eq, Bool-cases, eq_of_beq, arith,
}
use scm_metrics_exporter.Prelude.Int.{ℤ, pos, leb_ℤ, ◌<ℤ◌, int_eq}
use scm_metrics_exporter.Prelude.Errors.{Error, Result, ok, err, is_some, Gives, ◌>>=◌}
use scm_metrics_exporter.Prelude.Text.{Unicode}
use scm_metrics_exporter.Prelude.Text.Durations.{parse_duration}
use scm_metrics_exporter.Config.{
  Config, GitHubConfig, GitLabConfig, LifecycleConfig, Environment, validate_github_config,
  validate_gitlab_config, github_credentials, checked, load, load_github, load_gitlab, getenv_int64,
  github_settings, gitlab_settings, lifecycle_settings, base_settings, validate_lifecycle,
  default_poll_interval, default_resolution_window, load_lifecycle, load_provider, target,
  getenv_duration, parsed, positive,
}

abbrev pub given : String → Bool
given s = not (s == "")

-- The target's name goes with its type, and there is a token or the whole trio of a GitHub App.
abbrev pub github_usable : GitHubConfig → Bool
github_usable c =
    ((c.target_type == "org" && given c.org) || (c.target_type == "user" && given c.user))
    && (given c.token
        || (not (c.app_id == pos 0)
            && (not (c.app_installation_id == pos 0) && given c.app_private_key_path)))

abbrev pub gitlab_usable : GitLabConfig → Bool
gitlab_usable c =
    ((c.target_type == "group" && given c.group) || (c.target_type == "user" && given c.user))
    && given c.token

-- A text is not two different texts.
pub one_type : (s a b : String) → (a == b) ≡ false → ((s == a) && (s == b)) ≡ false
one_type s a b h = elim (Bool-cases (s == a)) [
  | inl e ↦ rw (e, eq_of_beq s a e) h
  | inr e ↦ rw e refl
]

-- GitHub settings are accepted exactly if they are usable.
pub validate_github_config_lem :
    (c : GitHubConfig) → is_some (validate_github_config c) ≡ not (github_usable c)
unfolding validate_github_config github_credentials
validate_github_config_lem c = grind (arith, one_type c.target_type "org" "user" refl)

pub validate_gitlab_config_lem :
    (c : GitLabConfig) → is_some (validate_gitlab_config c) ≡ not (gitlab_usable c)
unfolding validate_gitlab_config
validate_gitlab_config_lem c = grind (arith, one_type c.target_type "group" "user" refl)

-- A chain gives what its last step gives after what the first one gave.
bind-Gives :
    {A B : Type 0} (Q : A → Type 0) (P : B → Type 0) (r : Result A) (f : A → Result B)
    → Gives Q r
    → ((a : A) → Q a → Gives P (f a))
    → Gives P (r >>= f)
bind-Gives Q P (ok a) f h k = k a h
bind-Gives Q P (err e) f h k = tt

Gives-ok {ℓ κ} : {A : Type ℓ} (P : A → Type κ) (r : Result A) (a : A) → Gives P r → r ≡ ok a → P a
Gives-ok P r a h e = subst (Gives P) e h

-- A check that refuses what lacks a property.
checked-Gives {ℓ} :
    {A : Type ℓ} (good : A → Bool) (o : Option Error) (a : A)
    → is_some o ≡ not (good a)
    → Gives (λ a. good a ≡ true) (checked o a)
checked-Gives good none a h = ground arith
checked-Gives good (some e) a h = tt

-- What does not depend on the number in front of it.
number-Gives :
    {A : Type 0} (P : A → Type 0) (r : Result ℤ) (f : ℤ → Result A)
    → ((n : ℤ) → Gives P (f n))
    → Gives P (r >>= f)
number-Gives P (ok n) f h = h n
number-Gives P (err e) f h = tt

abbrev GitHubUsable : GitHubConfig → Type 0
GitHubUsable c = github_usable c ≡ true

abbrev GitLabUsable : GitLabConfig → Type 0
GitLabUsable c = gitlab_usable c ≡ true

checked_github : (c : GitHubConfig) → Gives GitHubUsable (checked (validate_github_config c) c)
checked_github c =
    checked-Gives github_usable (validate_github_config c) c (validate_github_config_lem c)

load_github-usable : (env : Environment) → Gives GitHubUsable (load_github env)
unfolding load_github
load_github-usable env = number-Gives GitHubUsable (getenv_int64 env "GITHUB_APP_ID") _ (λ id.
    number-Gives GitHubUsable (getenv_int64 env "GITHUB_APP_INSTALLATION_ID") _ (λ installation.
      number-Gives GitHubUsable (getenv_duration env "GITHUB_WORKFLOW_LOOKBACK" (pos 0)) _
        (λ t. checked_github (github_settings env id installation t))))

checked_gitlab : (c : GitLabConfig) → Gives GitLabUsable (checked (validate_gitlab_config c) c)
checked_gitlab c =
    checked-Gives gitlab_usable (validate_gitlab_config c) c (validate_gitlab_config_lem c)

load_gitlab-usable : (env : Environment) → Gives GitLabUsable (load_gitlab env)
unfolding load_gitlab
load_gitlab-usable env =
    number-Gives GitLabUsable (getenv_duration env "GITLAB_WORKFLOW_LOOKBACK" (pos 0)) _
      (λ t. checked_gitlab (gitlab_settings env t))

positive-Gives : (key : String) (d : ℤ) → Gives (λ n. pos 0 <ℤ n) (positive key d)
positive-Gives key d = elim (Bool-cases (leb_ℤ d (pos 0))) [
  | inl e ↦ rw e tt
  | inr e ↦ rw e (ground arith)
]

-- A duration that is read, or its default, is positive.
getenv_duration-positive :
    (env : Environment) (key : String) (def : ℤ)
    → pos 0 <ℤ def
    → Gives (λ n. pos 0 <ℤ n) (getenv_duration env key def)
unfolding getenv_duration
getenv_duration-positive env key def d = elim (Bool-cases (env key == "")) [
  | inl e ↦ rw e d
  | inr e ↦ rw e (
      number-Gives (λ n. pos 0 <ℤ n) (parsed key (parse_duration (env key))) (positive key)
        (positive-Gives key))
]

abbrev pub LifecycleUsable : LifecycleConfig → Type 0
LifecycleUsable l = (pos 0 <ℤ l.resolution_window) × ((not l.enabled || given l.valkey_addr) ≡ true)

checked_lifecycle :
    (l : LifecycleConfig)
    → pos 0 <ℤ l.resolution_window
    → Gives LifecycleUsable (checked (validate_lifecycle l) l)
unfolding validate_lifecycle
checked_lifecycle l p = elim (Bool-cases (l.enabled && l.valkey_addr == "")) [
  | inl h ↦ rw h tt
  | inr h ↦ rw h (p, ground (arith, h))
]

load_lifecycle-usable : (env : Environment) → Gives LifecycleUsable (load_lifecycle env)
unfolding load_lifecycle lifecycle_settings
load_lifecycle-usable env =
    bind-Gives (λ n. pos 0 <ℤ n) LifecycleUsable
      (getenv_duration env "SCM_RESOLUTION_WINDOW" default_resolution_window) _
      (getenv_duration-positive env "SCM_RESOLUTION_WINDOW" _ (omega arith))
      (λ window p. checked_lifecycle (lifecycle_settings env window) p)

-- The settings of the chosen provider are usable.
abbrev pub provider_usable : Config → Bool
provider_usable c =
    (c.provider == "github" && github_usable c.github)
    || (c.provider == "gitlab" && gitlab_usable c.gitlab)

-- Everything that the exporter needs from its settings.
abbrev pub Usable : String → Config → Type 0
Usable name c =
    (c.provider ≡ name)
    × (pos 0 <ℤ c.poll_interval)
    × LifecycleUsable c.lifecycle
    × (provider_usable c ≡ true)
    × (given (target c) ≡ true)

target-given : (c : Config) → provider_usable c ≡ true → given (target c) ≡ true
unfolding target
target-given c h = grind (
  arith,
  one_type c.provider "github" "gitlab" refl,
  one_type c.github.target_type "org" "user" refl,
  one_type c.gitlab.target_type "group" "user" refl,
)

load_provider-Usable :
    (env : Environment) (c : Config)
    → pos 0 <ℤ c.poll_interval
    → LifecycleUsable c.lifecycle
    → Gives (Usable c.provider) (load_provider env c)
unfolding load_provider
load_provider-Usable env c p l = elim (Bool-cases (c.provider == "github")) [
  | inl e ↦ rw e (
      bind-Gives GitHubUsable (Usable c.provider) (load_github env) _ (load_github-usable env)
        (λ g h.
          let good : provider_usable (record c { github = g }) ≡ true = rw (e, h) refl in
          (refl, p, l, good, target-given _ good)))
  | inr e ↦ rw e (elim (Bool-cases (c.provider == "gitlab")) [
    | inl f ↦ rw f (
        bind-Gives GitLabUsable (Usable c.provider) (load_gitlab env) _ (load_gitlab-usable env)
          (λ g h.
            let good : provider_usable (record c { gitlab = g }) ≡ true = rw (e, f, h) refl in
            (refl, p, l, good, target-given _ good)))
    | inr f ↦ rw f tt
  ])
]

module _ ⦃u : Unicode⦄ where
  -- Settings that are read are usable: the intervals are positive, a lifecycle store has an address
  -- if it is asked for, the chosen provider has a target that goes with its type, and a token or
  -- the whole trio of a GitHub App, and the target is not empty.
  pub load-Usable :
      (env : Environment) (name : String) (c : Config) → load env name ≡ ok c → Usable name c
  unfolding load base_settings
  load-Usable env name c h =
      let gives : Gives (Usable name) (load env name) =
        bind-Gives (λ n. pos 0 <ℤ n) (Usable name)
          (getenv_duration env "POLL_INTERVAL" default_poll_interval) _
          (getenv_duration-positive env "POLL_INTERVAL" _ (omega arith))
          (λ poll p.
            bind-Gives LifecycleUsable (Usable name) (load_lifecycle env) _
              (load_lifecycle-usable env)
              (λ l q. load_provider-Usable env (base_settings env name poll l) p q)) in
      Gives-ok (Usable name) (load env name) c gives h
