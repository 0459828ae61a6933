-- ===== src/Examples/Provider.antt =====
-- Examples about internal/provider/provider.go.
use scm_metrics_exporter.Prelude.{◌≡◌, refl, some, [], ◌∷◌}
use scm_metrics_exporter.Provider.Scope.{
  Scope, remediation_scope, parse_remediation_scope, scope_round_trip, IsClean,
}
use scm_metrics_exporter.Provider.Tally.{Tally}

abbrev pub api_secrets : Scope
api_secrets = record {
  provider_name = "github";
  repo = "api";
  category = "secret";
  resolution = "fixed";
  severity = "";
}

pub api_secrets-IsClean : IsClean api_secrets
api_secrets-IsClean = (
  (refl, (refl, (refl, (refl, (refl, (refl, tt)))))),
  (
    (refl, (refl, (refl, tt))),
    (
      (refl, (refl, (refl, (refl, (refl, (refl, tt)))))),
      ((refl, (refl, (refl, (refl, (refl, tt))))), (tt, tt)),
    ),
  ),
)

scope_round_trip_example :
    parse_remediation_scope (remediation_scope api_secrets) ≡ some api_secrets
scope_round_trip_example = scope_round_trip api_secrets api_secrets-IsClean

abbrev runs : Tally
runs = ("test", ("success", 4) ∷ ("failure", 1) ∷ []) ∷ ("build", ("success", 2) ∷ []) ∷ []
