-- ===== src/GitLab/Merge.antt =====
-- mergeRepos of internal/provider/gitlab/gitlab.go: the rows of a group's projects.
use scm_metrics_exporter.Prelude.{
  ℕ, String, ◌≡◌, refl, sym, ap, ◌∙◌, inl, inr, false, ◌||◌, Option, none, some, List, [], ◌∷◌,
  ◌++◌, map, contains, contains-append, IsDistinct, if◌then◌else◌, ◌==◌, string_eq, Bool-cases,
  eq_of_beq, arith,
}
use scm_metrics_exporter.Prelude.Assoc.{
  Map, keys, get, lookup, adjust, adjust-IsDistinct, contains-keys-adjust,
}
use scm_metrics_exporter.Prelude.Order.{leb_text}
use scm_metrics_exporter.Prelude.Sort.{sort, IsSorted}
use scm_metrics_exporter.Provider.{Finding, RepoMetrics, RepoPosture}
use scm_metrics_exporter.Provider.Merge.{
  Merged, no_metrics, at, at-adjust-same, HasNames, finding_le, merged_rows, rows, rows_lem, row_of,
  row_of-rows,
}
use scm_metrics_exporter.Provider.Merge.Findings.{
  with_findings, add_findings, add_finding_map, at-add_finding_map, under_map-get,
}
use scm_metrics_exporter.GitLab.Rest.{RestProject}

abbrev with_mrs : ℕ → RepoMetrics → RepoMetrics
with_mrs n r = record r { open_review_items = n }

abbrev with_posture : RepoPosture → RepoMetrics → RepoMetrics
with_posture p r = record r { posture = some p }

unfoldable pub set_open_mrs : List RestProject → Merged → Merged
set_open_mrs [] m = m
set_open_mrs (p ∷ ps) m =
    let name = p.path_with_namespace in
    set_open_mrs ps (adjust (no_metrics name) (with_mrs p.open_mrs) name m)

unfoldable pub set_posture : Map String RepoPosture → Merged → Merged
set_posture [] m = m
set_posture ((name, p) ∷ ps) m = set_posture ps (adjust (no_metrics name) (with_posture p) name m)

unfoldable pub merge_repos :
    List RestProject → Map String (List Finding) → Map String RepoPosture → List RepoMetrics
unfolding set_open_mrs set_posture add_finding_map merged_rows
merge_repos projects findings posture =
    let m = set_posture posture (add_finding_map findings (set_open_mrs projects [])) in rows m

abbrev pub paths : List RestProject → List String
paths ps = map (λ p. p.path_with_namespace) ps

-- The open merge requests of the last project of a path, `before` if there is none.
abbrev pub mrs_at : String → List RestProject → (before : ℕ) → ℕ
mrs_at n [] before = before
mrs_at n (p ∷ ps) before = mrs_at n ps (if p.path_with_namespace == n then p.open_mrs else before)

abbrev posture_at : String → Map String RepoPosture → Option RepoPosture → Option RepoPosture
posture_at n [] before = before
posture_at n ((k, p) ∷ ps) before = posture_at n ps (if k == n then some p else before)

at-set_open_mrs :
    (ps : List RestProject) (m : Merged) (n : String)
    → at (set_open_mrs ps m) n
      ≡ record (at m n) { open_review_items = mrs_at n ps (at m n).open_review_items }
unfolding set_open_mrs
at-set_open_mrs [] m n = refl
at-set_open_mrs (p ∷ ps) m n =
    let k = p.path_with_namespace in
    let step = at-adjust-same (with_mrs p.open_mrs) k n m in
    let rest = at-set_open_mrs ps (adjust (no_metrics k) (with_mrs p.open_mrs) k m) n in
    elim (Bool-cases (k == n)) [
      | inl e ↦ rest ∙ rw (step, e) refl
      | inr e ↦ rest ∙ rw (step, e) refl
    ]

at-set_posture :
    (ps : Map String RepoPosture) (m : Merged) (n : String)
    → at (set_posture ps m) n ≡ record (at m n) { posture = posture_at n ps (at m n).posture }
unfolding set_posture
at-set_posture [] m n = refl
at-set_posture ((k, p) ∷ ps) m n =
    let step = at-adjust-same (with_posture p) k n m in
    let rest = at-set_posture ps (adjust (no_metrics k) (with_posture p) k m) n in
    elim (Bool-cases (k == n)) [
      | inl e ↦ rest ∙ rw (step, e) refl
      | inr e ↦ rest ∙ rw (step, e) refl
    ]

-- How the names of the entries grow: by those of the source that is merged, each once.
abbrev Named : Merged → Merged → List String → Type 0
Named m m' names =
    (IsDistinct (keys m) → IsDistinct (keys m'))
    × ((n : String) → contains (keys m') n ≡ (contains names n || contains (keys m) n))

Named-adjust :
    (f : RepoMetrics → RepoMetrics) (k : String) (m m' : Merged) (names : List String)
    → Named (adjust (no_metrics k) f k m) m' names
    → Named m m' (k ∷ names)
Named-adjust f k m m' names (d, c) = (
  λ h. d (adjust-IsDistinct (no_metrics k) f k m h),
  λ n. ground (arith, c n, contains-keys-adjust (no_metrics k) f k n m),
)

set_open_mrs-Named : (ps : List RestProject) (m : Merged) → Named m (set_open_mrs ps m) (paths ps)
unfolding set_open_mrs
set_open_mrs-Named [] m = (λ d. d, λ n. refl)
set_open_mrs-Named (p ∷ ps) m =
    Named-adjust (with_mrs p.open_mrs) p.path_with_namespace m _ (paths ps)
      (set_open_mrs-Named ps _)

add_finding_map-Named :
    (fm : Map String (List Finding)) (m : Merged) → Named m (add_finding_map fm m) (keys fm)
unfolding add_finding_map
add_finding_map-Named [] m = (λ d. d, λ n. refl)
add_finding_map-Named ((k, fs) ∷ fm) m =
    Named-adjust (with_findings fs) k m _ (keys fm) (add_finding_map-Named fm (add_findings k fs m))

set_posture-Named :
    (ps : Map String RepoPosture) (m : Merged) → Named m (set_posture ps m) (keys ps)
unfolding set_posture
set_posture-Named [] m = (λ d. d, λ n. refl)
set_posture-Named ((k, p) ∷ ps) m =
    Named-adjust (with_posture p) k m _ (keys ps) (set_posture-Named ps _)

posture_at-absent :
    (n : String) (ps : Map String RepoPosture) (o : Option RepoPosture)
    → contains (keys ps) n ≡ false
    → posture_at n ps o ≡ o
posture_at-absent n [] o h = refl
posture_at-absent n ((k, p) ∷ ps) o h = ground (arith, posture_at-absent n ps o)

-- With one entry for each name, the last entry is the entry.
posture_at-lookup :
    (n : String) (ps : Map String RepoPosture)
    → IsDistinct (keys ps)
    → posture_at n ps none ≡ lookup n ps
unfolding lookup
posture_at-lookup n [] d = refl
posture_at-lookup n ((k, p) ∷ ps) (fresh, d) = elim (Bool-cases (k == n)) [
  | inl e ↦ rw e (
      posture_at-absent n ps (some p)
        (ap (λ j. contains (keys ps) j) (sym (eq_of_beq k n e)) ∙ fresh))
  | inr e ↦ rw e (posture_at-lookup n ps d)
]

-- The row of a project: its open merge requests, its findings in order, and its posture.
abbrev pub project_row : String → ℕ → List Finding → Option RepoPosture → RepoMetrics
project_row n mrs findings posture = record {
  name = n;
  open_review_items = mrs;
  findings = sort finding_le findings;
  posture = posture;
  workflow_runs = [];
  resolved_findings = [];
}

module _ (ps : List RestProject) (fm : Map String (List Finding))
    (posture : Map String RepoPosture) where
  abbrev merged : Merged
  merged = set_posture posture (add_finding_map fm (set_open_mrs ps []))

  merged-at :
      (n : String)
      → IsDistinct (keys fm)
      → IsDistinct (keys posture)
      → at merged n ≡ record (no_metrics n) {
        open_review_items = mrs_at n ps 0;
        findings = get [] n fm;
        posture = lookup n posture;
      }
  unfolding lookup
  merged-at n d e =
      at-set_posture posture (add_finding_map fm (set_open_mrs ps [])) n
      ∙ rw
          (
            at-add_finding_map fm (set_open_mrs ps []) n,
            at-set_open_mrs ps [] n,
            posture_at-lookup n posture e,
            under_map-get n fm d,
          )
          refl

  merged-Named : Named [] merged (keys posture ++ (keys fm ++ paths ps))
  merged-Named =
      let (d1, c1) = set_open_mrs-Named ps [] in
      let (d2, c2) = add_finding_map-Named fm (set_open_mrs ps []) in
      let (d3, c3) = set_posture-Named posture (add_finding_map fm (set_open_mrs ps [])) in
      (
        λ d. d3 (d2 (d1 d)),
        λ n. ground (
          arith,
          c1 n,
          c2 n,
          c3 n,
          contains-append (keys posture) (keys fm ++ paths ps) n,
          contains-append (keys fm) (paths ps) n,
        ),
      )

  -- The rows that mergeRepos returns for maps with one entry for each name have sorted names, each
  -- once. A name has a row exactly if some source names it, and the row holds the open merge requests
  -- of the last project of that path, the findings of that name in order, and its posture.
  pub merge_projects_lem :
      (n : String)
      → IsDistinct (keys fm)
      → IsDistinct (keys posture)
      → IsSorted leb_text (map (λ r. r.name) (merge_repos ps fm posture))
        × IsDistinct (map (λ r. r.name) (merge_repos ps fm posture))
        × (row_of n (merge_repos ps fm posture) ≡ (
            if contains (keys posture ++ (keys fm ++ paths ps)) n
            then some (project_row n (mrs_at n ps 0) (get [] n fm) (lookup n posture))
            else none))
  unfolding merge_repos
  merge_projects_lem n d e =
      let named : HasNames merged = λ k. ap (λ r. r.name) (merged-at k d e) in
      let (single, names) = merged-Named in
      let row = project_row n (mrs_at n ps 0) (get [] n fm) (lookup n posture) in
      let (s, t, _, _, _) = rows_lem merged n named (single tt) in
      (
        s,
        t,
        row_of-rows merged n named
            ∙ rw (merged-at n d e)
                (ap (λ b. if b then some row else none) (names n ∙ ground arith)),
      )
