-- ===== src/Config/Dimensions.antt =====
-- The list of finding dimensions that internal/config reads, as the operator writes it.
use Prim.Native.Char.{char}
use scm_metrics_exporter.Prelude.{
  String, ◌≡◌, refl, ap, ◌∙◌, Bool, ◌||◌, List, [], ◌∷◌, any, All, ◌==◌, string_eq, arith,
}
use scm_metrics_exporter.Prelude.Text.{Unicode}
use scm_metrics_exporter.Prelude.Text.Split.{join, Lacks, split-join}
use scm_metrics_exporter.Prelude.Text.Trim.{trim_space}
use scm_metrics_exporter.Config.Usable.{one_type}
use scm_metrics_exporter.Config.{FindingDimensions, add_dimension, add_dimensions, parse_dimensions}

same_dimensions :
    (d e : FindingDimensions)
    → d.ecosystem ≡ e.ecosystem
    → d.tool ≡ e.tool
    → d.severity ≡ e.severity
    → d ≡ e
same_dimensions d e p q r = cc

module _ ⦃u : Unicode⦄ where
  -- Some part of the list is the name, up to white space around it.
  abbrev pub names : String → List String → Bool
  names name parts = any (λ p. trim_space p == name) parts

  abbrev merged : FindingDimensions → List String → FindingDimensions
  merged d parts = record {
    ecosystem = d.ecosystem || names "ecosystem" parts;
    tool = d.tool || names "tool" parts;
    severity = d.severity || names "severity" parts;
  }

  add_dimension-merged :
      (d : FindingDimensions) (p : String) → add_dimension d p ≡ merged d (p ∷ [])
  unfolding add_dimension
  add_dimension-merged d p =
      let one = one_type (trim_space p) in
      same_dimensions _ _
        (ground (arith, one "ecosystem" "tool" refl, one "ecosystem" "severity" refl))
        (ground (arith, one "ecosystem" "tool" refl, one "tool" "severity" refl))
        (ground (arith, one "ecosystem" "severity" refl, one "tool" "severity" refl))

  merged-merged :
      (d : FindingDimensions) (p : String) (ps : List String)
      → merged (merged d (p ∷ [])) ps ≡ merged d (p ∷ ps)
  merged-merged d p ps = same_dimensions _ _ (ground arith) (ground arith) (ground arith)

  add_dimensions-merged :
      (d : FindingDimensions) (parts : List String) → add_dimensions d parts ≡ merged d parts
  unfolding add_dimensions
  add_dimensions-merged d [] = same_dimensions _ _ (ground arith) (ground arith) (ground arith)
  add_dimensions-merged d (p ∷ ps) =
      add_dimensions-merged (add_dimension d p) ps
      ∙ ap (λ e. merged e ps) (add_dimension-merged d p)
      ∙ merged-merged d p ps

  -- The dimensions that the operator joins with commas are those that the exporter turns on,
  -- whatever their order, repetitions and unknown names, if there is one and none holds a comma.
  pub parse_dimensions-join :
      (d : String) (ds : List String)
      → Lacks (char 44 tt) d
      → All (Lacks (char 44 tt)) ds
      → parse_dimensions (join (char 44 tt) (d ∷ ds)) ≡ record {
        ecosystem = names "ecosystem" (d ∷ ds);
        tool = names "tool" (d ∷ ds);
        severity = names "severity" (d ∷ ds);
      }
  unfolding parse_dimensions
  parse_dimensions-join d ds h k =
      rw (split-join (char 44 tt) d ds h k) (add_dimensions-merged _ (d ∷ ds))
