-- ===== src/Provider/Merge/Findings.antt =====
-- A map of findings merged into the repositories of mergeRepos.
use mathlib.Core.List.{append_assoc, append-nil}
use scm_metrics_exporter.Prelude.{
  String, ◌≡◌, refl, sym, ap, subst, ◌∙◌, inl, inr, false, List, [], ◌∷◌, ◌++◌, IsDistinct,
  contains, if◌then◌else◌, ◌==◌, string_eq, Bool-cases, eq_of_beq, arith,
}
use scm_metrics_exporter.Prelude.Assoc.{Map, keys, get, lookup, adjust, adjust-IsDistinct}
use scm_metrics_exporter.Provider.{Finding, RepoMetrics}
use scm_metrics_exporter.Provider.Merge.{Merged, no_metrics, at, at-adjust-same}

abbrev pub with_findings : List Finding → RepoMetrics → RepoMetrics
with_findings fs r = record r { findings = r.findings ++ fs }

unfoldable pub add_findings : String → List Finding → Merged → Merged
add_findings name fs = adjust (no_metrics name) (with_findings fs) name

unfoldable pub add_finding_map : Map String (List Finding) → Merged → Merged
unfolding add_findings
add_finding_map [] m = m
add_finding_map ((name, fs) ∷ rest) m = add_finding_map rest (add_findings name fs m)

abbrev pub under_map : String → Map String (List Finding) → List Finding
under_map n [] = []
under_map n ((k, fs) ∷ m) = (if k == n then fs else []) ++ under_map n m

-- With one entry for each name, what is reported under a name is its entry.
under_map-absent :
    (n : String) (m : Map String (List Finding)) → contains (keys m) n ≡ false → under_map n m ≡ []
under_map-absent n [] h = refl
under_map-absent n ((k, fs) ∷ m) h = ground (arith, under_map-absent n m)

pub under_map-get :
    (n : String) (m : Map String (List Finding)) → IsDistinct (keys m) → under_map n m ≡ get [] n m
unfolding lookup
under_map-get n [] d = refl
under_map-get n ((k, fs) ∷ m) (fresh, d) = elim (Bool-cases (k == n)) [
  | inl e ↦ rw e (
      ap (λ more. fs ++ more)
        (under_map-absent n m (subst (λ j. contains (keys m) j ≡ false) (eq_of_beq k n e) fresh))
      ∙ append-nil fs)
  | inr e ↦ rw e (under_map-get n m d)
]

pub at-add_finding_map :
    (fm : Map String (List Finding)) (m : Merged) (n : String)
    → at (add_finding_map fm m) n
      ≡ record (at m n) { findings = (at m n).findings ++ under_map n fm }
unfolding add_finding_map
at-add_finding_map [] m n =
    ap (λ fs. record (at m n) { findings = fs }) (sym (append-nil (at m n).findings))
at-add_finding_map ((k, fs) ∷ fm) m n = elim (Bool-cases (k == n)) [
  | inl e ↦
      at-add_finding_map fm (add_findings k fs m) n
      ∙ rw (at-adjust-same (with_findings fs) k n m, e)
          (ap (λ gs. record (at m n) { findings = gs })
            (append_assoc (at m n).findings fs (under_map n fm)))
  | inr e ↦
      at-add_finding_map fm (add_findings k fs m) n
      ∙ rw (at-adjust-same (with_findings fs) k n m, e) refl
]

pub add_finding_map-IsDistinct :
    (fm : Map String (List Finding)) (m : Merged)
    → IsDistinct (keys m)
    → IsDistinct (keys (add_finding_map fm m))
unfolding add_finding_map
add_finding_map-IsDistinct [] m d = d
add_finding_map-IsDistinct ((k, fs) ∷ fm) m d =
    add_finding_map-IsDistinct fm (add_findings k fs m)
      (adjust-IsDistinct (no_metrics k) (with_findings fs) k m d)
