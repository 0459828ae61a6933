-- ===== src/Operator.antt =====
-- cmd/operator/namespaces.go: the namespaces that the operator watches.
pub mod Namespaces
use Prim.Native.Char.{char}
use Prim.Native.String
use scm_metrics_exporter.Prelude.{
  String, Bool, true, false, not, List, [], ◌∷◌, ◌++◌, is_empty, contains, if◌then◌else◌, ◌==◌,
  string_eq,
}
use scm_metrics_exporter.Prelude.Errors.{Error, message, Result, ok, err}
use scm_metrics_exporter.Prelude.Text.{Unicode}
use scm_metrics_exporter.Prelude.Text.Split.{split}
use scm_metrics_exporter.Prelude.Text.Trim.{trim_space}

-- `strings.Join(errs, "; ")`
abbrev join_reasons : List String → String
join_reasons [] = ""
join_reasons (e ∷ []) = e
join_reasons (e ∷ (f ∷ es)) = String.◌++◌ e (String.◌++◌ "; " (join_reasons (f ∷ es)))

-- `label_errors` is IsDNS1123Label of k8s.io/apimachinery: why a text is no label.
module _ ⦃u : Unicode⦄ (label_errors : String → List String) where
  -- The loop over the parts, with the set `seen` and the slice `namespaces`.
  unfoldable pub watch_parts : (seen namespaces parts : List String) → Result (List String)
  watch_parts seen namespaces [] = ok namespaces
  watch_parts seen namespaces (part ∷ parts) =
      let ns = trim_space part in
      let skip = watch_parts seen namespaces parts in
      let add = watch_parts (ns ∷ seen) (namespaces ++ ns ∷ []) parts in
      let reasons = join_reasons (label_errors ns) in
      let text = String.◌++◌ (String.◌++◌ (String.◌++◌ "namespace " ns) ": ") reasons in
      if ns == ""
      then skip
      else if not (is_empty (label_errors ns))
      then err (message text)
      else if contains seen ns
      then skip
      else add

  unfoldable pub parse_watch_namespaces : String → Result (List String)
  unfolding watch_parts
  parse_watch_namespaces value = watch_parts [] [] (split (char 44 tt) value)
