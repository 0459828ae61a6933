-- ===== src/Api/Webhook.antt =====
-- The validating webhooks of api/v1alpha1.
use Prim.Native.String
use scm_metrics_exporter.Prelude.{
  String, Bool, true, false, Option, none, some, List, [], ◌∷◌, contains, is_empty, if◌then◌else◌,
  ◌==◌, string_eq,
}
use scm_metrics_exporter.Prelude.Assoc.{lookup}
use scm_metrics_exporter.Prelude.Errors.{Error, message, is_some}
use scm_metrics_exporter.Prelude.Order.{leb_text}
use scm_metrics_exporter.Prelude.Sort.{sort}
use scm_metrics_exporter.Api.{
  GitHubSpec, GitLabSpec, Resource, Secret, Fetched, found, not_found, fetch_failed,
}

-- `strings.Join(names, ", ")`
abbrev join_names : List String → String
join_names [] = ""
join_names (n ∷ []) = n
join_names (n ∷ (m ∷ ns)) = String.◌++◌ n (String.◌++◌ ", " (join_names (m ∷ ns)))

-- The members of a set, each once.
abbrev new_namespace_set : List String → List String
new_namespace_set [] = []
new_namespace_set (n ∷ ns) =
    let rest = new_namespace_set ns in if contains rest n then rest else n ∷ rest

unfoldable pub validate_watched : List String → String → Option Error
validate_watched set namespace =
    if is_empty set
    then none
    else if contains set namespace
    then none
    else some (
        message (
          String.◌++◌ (String.◌++◌ "namespace " namespace)
            (String.◌++◌ " is not watched by this operator: " (join_names (sort leb_text set)))))

abbrev key_check : String → String → Bool → Option Error
key_check name key true = none
key_check name key false = some (
    message
      (String.◌++◌ (String.◌++◌ "credentialsSecret " name) (String.◌++◌ " is missing key " key)))

-- `get` reads a Secret of the resource's namespace by its name.
unfoldable pub validate_credentials_secret :
    (String → Fetched Secret) → String → String → Option Error
validate_credentials_secret get name key =
    let answer : Option Error = elim (get name) [
      | not_found ↦
          some (message (String.◌++◌ (String.◌++◌ "credentialsSecret " name) " not found"))
      | fetch_failed e ↦ some e
      | found secret ↦ key_check name key (is_some (lookup key secret))
    ] in
    if name == "" then some (message "spec.credentialsSecret.name is required") else answer

unfoldable pub wanted_key : GitHubSpec → String
wanted_key spec = if spec.auth_mode == "app" then spec.app_private_key_key else spec.token_key

-- The first error.
abbrev or_else_check : Option Error → Option Error → Option Error
or_else_check (some e) next = some e
or_else_check none next = next

unfoldable pub validate_github :
    List String → (String → String → Fetched Secret) → Resource GitHubSpec → Option Error
validate_github set get cr =
    let key = wanted_key cr.spec in
    or_else_check (validate_watched set cr.namespace) (
      if key == ""
      then some (message (String.◌++◌ "authMode requires its key field: " cr.spec.auth_mode))
      else validate_credentials_secret (get cr.namespace) cr.spec.exporter.credentials_secret key)

unfoldable pub validate_gitlab :
    List String → (String → String → Fetched Secret) → Resource GitLabSpec → Option Error
validate_gitlab set get cr = or_else_check (validate_watched set cr.namespace) (
    validate_credentials_secret (get cr.namespace) cr.spec.exporter.credentials_secret
      cr.spec.token_key)
