-- ===== src/GitHub/Merge.antt =====
-- mergeRepos of internal/provider/github: nothing is lost, whatever the sources name.
use mathlib.Core.List.{Perm, append_assoc, append-nil}
use scm_metrics_exporter.Prelude.{
  String, ◌≡◌, refl, sym, subst, ap, ◌∙◌, ◌||◌, List, [], ◌∷◌, ◌++◌, map, contains, contains-append,
  IsDistinct, if◌then◌else◌, ◌==◌, string_eq, arith,
}
use scm_metrics_exporter.Prelude.Assoc.{
  Map, keys, lookup, adjust, contains-keys-adjust, adjust-IsDistinct,
}
use scm_metrics_exporter.Prelude.Order.{leb_text}
use scm_metrics_exporter.Prelude.Sort.{IsSorted}
use scm_metrics_exporter.Provider.{Finding, RepoMetrics}
use scm_metrics_exporter.Provider.Merge.{
  Merged, no_metrics, at, adjust-findings, HasNames, empty-HasNames, adjust-HasNames, row_of,
  findings_of, finding_le, rows_lem,
}
use scm_metrics_exporter.Provider.Merge.Findings.{
  with_findings, add_findings, add_finding_map, under_map,
}
use scm_metrics_exporter.GitHub.Repo.{
  GraphqlRepo, with_repo, add_repo, add_repos, add_finding_maps, merge_repos,
}

abbrev FindingMaps : Type 0
FindingMaps = List (Map String (List Finding))

-- The findings that the sources report under a name.
abbrev pub under_repos : String → List GraphqlRepo → List Finding
under_repos n [] = []
under_repos n (g ∷ gs) = (if g.name == n then g.findings else []) ++ under_repos n gs

abbrev pub under_maps : String → List (Map String (List Finding)) → List Finding
under_maps n [] = []
under_maps n (fm ∷ fms) = under_map n fm ++ under_maps n fms

-- Whether a source names a repository.
abbrev pub repo_names : List GraphqlRepo → List String
repo_names gs = map (λ g. g.name) gs

abbrev pub map_names : List (Map String (List Finding)) → List String
map_names [] = []
map_names (fm ∷ fms) = keys fm ++ map_names fms

-- What a merge step makes of the entries: their names stay, and a name's findings grow.
abbrev Grows : Merged → Merged → (String → List Finding) → List String → Type 0
Grows m m' more names =
    (HasNames m → HasNames m')
    × (IsDistinct (keys m) → IsDistinct (keys m'))
    × ((n : String) → (at m' n).findings ≡ (at m n).findings ++ more n)
    × ((n : String) → contains (keys m') n ≡ (contains (keys m) n || contains names n))

Grows-nil : (m : Merged) → Grows m m (λ _. []) []
Grows-nil m = (λ h. h, λ d. d, λ n. sym (append-nil (at m n).findings), λ n. ground arith)

Grows-trans :
    (a b c : Merged) (f g : String → List Finding) (xs ys : List String)
    → Grows a b f xs
    → Grows b c g ys
    → Grows a c (λ n. f n ++ g n) (xs ++ ys)
Grows-trans a b c f g xs ys (n1, d1, f1, k1) (n2, d2, f2, k2) = (
  λ h. n2 (n1 h),
  λ d. d2 (d1 d),
  λ n. f2 n ∙ ap (λ fs. fs ++ g n) (f1 n) ∙ append_assoc (at a n).findings (f n) (g n),
  λ n. ground (arith, k1 n, k2 n, contains-append xs ys n),
)

Grows-adjust :
    (f : RepoMetrics → RepoMetrics) (more : List Finding) (k : String) (m : Merged)
    → ((r : RepoMetrics) → (f r).name ≡ r.name)
    → ((r : RepoMetrics) → (f r).findings ≡ r.findings ++ more)
    → Grows m (adjust (no_metrics k) f k m) (λ n. if k == n then more else []) (k ∷ [])
Grows-adjust f more k m keeps grows = (
  adjust-HasNames f k m keeps,
  adjust-IsDistinct (no_metrics k) f k m,
  λ n. adjust-findings f more k n m grows,
  λ n. ground (arith, contains-keys-adjust (no_metrics k) f k n m),
)

add_repos-Grows :
    (gs : List GraphqlRepo) (m : Merged)
    → Grows m (add_repos gs m) (λ n. under_repos n gs) (repo_names gs)
unfolding add_repos
add_repos-Grows [] m = Grows-nil m
add_repos-Grows (g ∷ gs) m =
    Grows-trans m (add_repo g m) _ _ (λ n. under_repos n gs) (g.name ∷ []) (repo_names gs)
      (Grows-adjust (with_repo g) g.findings g.name m (λ r. refl) (λ r. refl))
      (add_repos-Grows gs (add_repo g m))

add_finding_map-Grows :
    (fm : Map String (List Finding)) (m : Merged)
    → Grows m (add_finding_map fm m) (λ n. under_map n fm) (keys fm)
unfolding add_finding_map
add_finding_map-Grows [] m = Grows-nil m
add_finding_map-Grows ((k, fs) ∷ fm) m =
    Grows-trans m (add_findings k fs m) _ _ (λ n. under_map n fm) (k ∷ []) (keys fm)
      (Grows-adjust (with_findings fs) fs k m (λ r. refl) (λ r. refl))
      (add_finding_map-Grows fm (add_findings k fs m))

add_finding_maps-Grows :
    (fms : List (Map String (List Finding))) (m : Merged)
    → Grows m (add_finding_maps fms m) (λ n. under_maps n fms) (map_names fms)
unfolding add_finding_maps
add_finding_maps-Grows [] m = Grows-nil m
add_finding_maps-Grows (fm ∷ fms) m =
    Grows-trans m (add_finding_map fm m) _ _ (λ n. under_maps n fms) (keys fm) (map_names fms)
      (add_finding_map-Grows fm m) (add_finding_maps-Grows fms (add_finding_map fm m))

-- The rows that mergeRepos returns have sorted names, each once: exactly the names that some source
-- gives. The findings of a name are exactly those that the sources report under it, each as often
-- as it is reported, sorted by category and then by severity.
pub merge_repos_lem :
    (gs : List GraphqlRepo) (fms : List (Map String (List Finding))) (n : String)
    → IsSorted leb_text (map (λ r. r.name) (merge_repos gs fms))
      × IsDistinct (map (λ r. r.name) (merge_repos gs fms))
      × (contains (map (λ r. r.name) (merge_repos gs fms)) n
          ≡ contains (repo_names gs ++ map_names fms) n)
      × Perm (findings_of (row_of n (merge_repos gs fms))) (under_repos n gs ++ under_maps n fms)
      × IsSorted finding_le (findings_of (row_of n (merge_repos gs fms)))
unfolding merge_repos lookup
merge_repos_lem gs fms n =
    let m = add_repos gs [] in
    let (named, single, findings, names) =
      Grows-trans [] m (add_finding_maps fms m) _ _ (repo_names gs) (map_names fms)
        (add_repos-Grows gs []) (add_finding_maps-Grows fms m) in
    let (s, d, c, p, o) = rows_lem (add_finding_maps fms m) n (named empty-HasNames) (single tt) in
    (s, d, c ∙ names n, subst (Perm _) (findings n) p, o)
