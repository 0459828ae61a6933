-- ===== src/Provider/Scope.antt =====
-- `RemediationScope` and `ParseRemediationScope` of internal/provider/provider.go.
use Prim.Native.Char.{Char, char}
use scm_metrics_exporter.Prelude.{
  String, ◌≡◌, sym, ap, ◌∙◌, Option, none, some, List, [], ◌∷◌, All, arith,
}
use scm_metrics_exporter.Prelude.Text.Split.{split, join, Lacks, split-join, join-split}

-- U+001F, the unit separator.
abbrev pub remediation_scope_sep : Char
remediation_scope_sep = char 31 tt

-- The label tuple of a remediation histogram.
pub record Scope : Type 0 where
  pub provider_name : String
  pub repo : String
  pub category : String
  pub resolution : String
  pub severity : String

abbrev fields : Scope → List String
fields s = s.provider_name ∷ s.repo ∷ s.category ∷ s.resolution ∷ s.severity ∷ []

unfoldable pub remediation_scope : Scope → String
remediation_scope s = join remediation_scope_sep (fields s)

abbrev five : List String → Option Scope
five (p ∷ r ∷ c ∷ o ∷ s ∷ []) =
    some (record { provider_name = p; repo = r; category = c; resolution = o; severity = s })
five _ = none

unfoldable pub parse_remediation_scope : String → Option Scope
parse_remediation_scope scope = five (split remediation_scope_sep scope)

-- No label holds the separator.
abbrev pub IsClean : Scope → Type 0
IsClean s = All (Lacks remediation_scope_sep) (fields s)

five_inv : (parts : List String) (s : Scope) → five parts ≡ some s → parts ≡ fields s
five_inv (p ∷ r ∷ c ∷ o ∷ v ∷ []) s h = ground arith
five_inv [] s h = cc
five_inv (p ∷ []) s h = cc
five_inv (p ∷ r ∷ []) s h = cc
five_inv (p ∷ r ∷ c ∷ []) s h = cc
five_inv (p ∷ r ∷ c ∷ o ∷ []) s h = cc
five_inv (p ∷ r ∷ c ∷ o ∷ v ∷ x ∷ l) s h = cc

-- Labels that hold no separator are read back from their scope key.
pub scope_round_trip :
    (s : Scope) → IsClean s → parse_remediation_scope (remediation_scope s) ≡ some s
unfolding parse_remediation_scope remediation_scope
scope_round_trip s c = ap five (split-join remediation_scope_sep s.provider_name _ c.0 c.1)

-- A key that is read as some labels, whatever they hold, is the key of those labels.
pub parse_remediation_scope_sound :
    (key : String) (s : Scope) → parse_remediation_scope key ≡ some s → key ≡ remediation_scope s
unfolding parse_remediation_scope remediation_scope
parse_remediation_scope_sound key s h =
    sym (join-split remediation_scope_sep key)
    ∙ ap (join remediation_scope_sep) (five_inv (split remediation_scope_sep key) s h)
