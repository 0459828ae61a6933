-- ===== src/Api/Schema.antt =====
-- The rules of api/v1alpha1 that the API server checks: the validation markers of the GitHub spec.
use scm_metrics_exporter.Prelude.{
  String, Bool, false, not, ◌&&◌, ◌||◌, Option, none, some, ◌==◌, string_eq,
}
use scm_metrics_exporter.Prelude.Int.{ℤ, pos, leb_ℤ}
use scm_metrics_exporter.Api.{ValkeyConfig, GitHubSpec}

-- `size(s) > 0`
abbrev pub sized : String → Bool
sized s = not (s == "")

-- `x > 0`
abbrev pub positive : ℤ → Bool
positive x = not (leb_ℤ x (pos 0))

-- The settings are there, and their endpoint has a rune.
unfoldable pub valkey_given : Option ValkeyConfig → Bool
valkey_given none = false
valkey_given (some v) = sized v.endpoint

-- The five rules and the two enums of the spec, and the settings of the lifecycle store.
unfoldable pub github_schema : GitHubSpec → Bool
unfolding valkey_given
github_schema spec =
    (spec.target_type == "org" || spec.target_type == "user")
    && (spec.auth_mode == "token" || spec.auth_mode == "app")
    && (not (spec.target_type == "org") || sized spec.org)
    && (not (spec.target_type == "user") || sized spec.user)
    && (not (spec.auth_mode == "app")
        || (positive spec.app_id
            && (positive spec.app_installation_id && sized spec.app_private_key_key)))
    && (not (spec.auth_mode == "token") || sized spec.token_key)
    && (not spec.exporter.collect_lifecycle || valkey_given spec.exporter.valkey)
