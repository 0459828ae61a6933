-- ===== src/GitLab/Group/Rows.antt =====
-- What the steps over the pages of a group gather, by project.
pub mod Whole
use mathlib.Core.List.{append_assoc, append-nil, map-append}
use scm_metrics_exporter.Prelude.{
  ℕ, ◌+◌, String, ◌≡◌, refl, sym, ap, subst, ◌∙◌, inl, inr, Bool, true, false, Option, none, some,
  List, [], ◌∷◌, ◌++◌, map, count, contains, IsDistinct, if◌then◌else◌, ◌==◌, string_eq, Bool-cases,
  Option-cases, eq_of_beq, arith,
}
use scm_metrics_exporter.Prelude.Int.{ℤ, int_eq}
use scm_metrics_exporter.Prelude.Assoc.{
  Map, keys, get, lookup, insert, adjust, get-adjust, lookup-adjust, adjust-IsDistinct,
}
use scm_metrics_exporter.Prelude.Text.{Unicode}
use scm_metrics_exporter.Provider.{Finding, RepoPosture}
use scm_metrics_exporter.GitLab.Pages.{IgnoresPages}
use scm_metrics_exporter.GitLab.Rest.{
  Project, RestProject, listed, add_projects, count_mrs, with_counts,
}
use scm_metrics_exporter.GitLab.Graphql.{
  Vulnerability, ProjectNode, vulnerability_finding, add_finding, map_vulnerabilities,
  project_posture, map_project_posture,
}
use scm_metrics_exporter.GitLab.Merge.{mrs_at}

pub add_projects-IgnoresPages : IgnoresPages add_projects
unfolding add_projects
add_projects-IgnoresPages = (
  append-nil,
  λ old xs ys.
      append_assoc old (map listed xs) (map listed ys)
      ∙ ap (λ ps. old ++ ps) (sym (map-append listed xs ys)),
)

count_mrs-append :
    (m : Map ℤ ℕ) (xs ys : List ℤ) → count_mrs (count_mrs m xs) ys ≡ count_mrs m (xs ++ ys)
unfolding count_mrs
count_mrs-append m [] ys = refl
count_mrs-append m (x ∷ xs) ys = count_mrs-append (adjust 0 (λ n. n + 1) x m) xs ys

pub count_mrs-IgnoresPages : IgnoresPages count_mrs
unfolding count_mrs
count_mrs-IgnoresPages = (λ m. refl, count_mrs-append)

-- A sweep counts the merge requests of each project.
pub get-count_mrs :
    (m : Map ℤ ℕ) (ids : List ℤ) (id : ℤ)
    → get 0 id (count_mrs m ids) ≡ get 0 id m + count (λ j. j == id) ids
unfolding count_mrs
get-count_mrs m [] id = omega arith
get-count_mrs m (j ∷ ids) id = elim (Bool-cases (j == id)) [
  | inl e ↦
      let now : get 0 id (adjust 0 (λ n. n + 1) j m) ≡ get 0 id m + 1 =
        get-adjust 0 (λ n. n + 1) j id m ∙ rw e (ap (λ k. get 0 k m + 1) (eq_of_beq j id e)) in
      get-count_mrs (adjust 0 (λ n. n + 1) j m) ids id ∙ rw (now, e) (omega arith)
  | inr e ↦
      let now : get 0 id (adjust 0 (λ n. n + 1) j m) ≡ get 0 id m =
        get-adjust 0 (λ n. n + 1) j id m ∙ rw e refl in
      get-count_mrs (adjust 0 (λ n. n + 1) j m) ids id ∙ rw (now, e) (omega arith)
]

counted : (ids : List ℤ) (id : ℤ) → get 0 id (count_mrs [] ids) ≡ count (λ j. j == id) ids
unfolding lookup
counted ids id = get-count_mrs [] ids id ∙ omega arith

-- The open merge requests of the last listed project of a path.
abbrev pub mrs_of : String → List Project → List ℤ → (before : ℕ) → ℕ
mrs_of n [] mrs before = before
mrs_of n (p ∷ ps) mrs before =
    mrs_of n ps mrs (if p.path_with_namespace == n then count (λ j. j == p.id) mrs else before)

pub mrs_at-with_counts :
    (n : String) (ps : List Project) (mrs : List ℤ) (before : ℕ)
    → mrs_at n (with_counts (count_mrs [] mrs) (map listed ps)) before ≡ mrs_of n ps mrs before
unfolding with_counts
mrs_at-with_counts n [] mrs before = refl
mrs_at-with_counts n (p ∷ ps) mrs before = rw (counted mrs p.id) (
    mrs_at-with_counts n ps mrs
      (if p.path_with_namespace == n then count (λ j. j == p.id) mrs else before))

abbrev to_list : Option Finding → List Finding
to_list none = []
to_list (some f) = f ∷ []

module _ ⦃u : Unicode⦄ where
  -- The findings of the vulnerabilities of a project, in order.
  abbrev pub found_at : String → List Vulnerability → List Finding
  found_at n [] = []
  found_at n (v ∷ vs) =
      (if v.full_path == n then to_list (vulnerability_finding v) else []) ++ found_at n vs

  map_vulnerabilities-append :
      (m : Map String (List Finding)) (xs ys : List Vulnerability)
      → map_vulnerabilities (map_vulnerabilities m xs) ys ≡ map_vulnerabilities m (xs ++ ys)
  unfolding map_vulnerabilities
  map_vulnerabilities-append m [] ys = refl
  map_vulnerabilities-append m (x ∷ xs) ys =
      map_vulnerabilities-append (add_finding x.full_path (vulnerability_finding x) m) xs ys

  pub map_vulnerabilities-IgnoresPages : IgnoresPages map_vulnerabilities
  unfolding map_vulnerabilities
  map_vulnerabilities-IgnoresPages = (λ m. refl, map_vulnerabilities-append)

  get-add_finding :
      (n k : String) (o : Option Finding) (m : Map String (List Finding))
      → get [] n (add_finding k o m) ≡ get [] n m ++ (if k == n then to_list o else [])
  get-add_finding n k none m = elim (Bool-cases (k == n)) [
    | inl e ↦ rw e (sym (append-nil (get [] n m)))
    | inr e ↦ rw e (sym (append-nil (get [] n m)))
  ]
  get-add_finding n k (some f) m = elim (Bool-cases (k == n)) [
    | inl e ↦
        get-adjust [] (λ fs. fs ++ f ∷ []) k n m
        ∙ rw e (ap (λ j. get [] j m ++ f ∷ []) (eq_of_beq k n e))
    | inr e ↦ get-adjust [] (λ fs. fs ++ f ∷ []) k n m ∙ rw e (sym (append-nil (get [] n m)))
  ]

  pub get-map_vulnerabilities :
      (n : String) (vs : List Vulnerability) (m : Map String (List Finding))
      → get [] n (map_vulnerabilities m vs) ≡ get [] n m ++ found_at n vs
  unfolding map_vulnerabilities
  get-map_vulnerabilities n [] m = sym (append-nil (get [] n m))
  get-map_vulnerabilities n (v ∷ vs) m =
      let more = if v.full_path == n then to_list (vulnerability_finding v) else [] in
      get-map_vulnerabilities n vs (add_finding v.full_path (vulnerability_finding v) m)
      ∙ ap (λ fs. fs ++ found_at n vs) (get-add_finding n v.full_path (vulnerability_finding v) m)
      ∙ append_assoc (get [] n m) more (found_at n vs)

  add_finding-IsDistinct :
      (k : String) (o : Option Finding) (m : Map String (List Finding))
      → IsDistinct (keys m)
      → IsDistinct (keys (add_finding k o m))
  add_finding-IsDistinct k none m d = d
  add_finding-IsDistinct k (some f) m d = adjust-IsDistinct [] (λ fs. fs ++ f ∷ []) k m d

  pub map_vulnerabilities-IsDistinct :
      (vs : List Vulnerability) (m : Map String (List Finding))
      → IsDistinct (keys m)
      → IsDistinct (keys (map_vulnerabilities m vs))
  unfolding map_vulnerabilities
  map_vulnerabilities-IsDistinct [] m d = d
  map_vulnerabilities-IsDistinct (v ∷ vs) m d =
      map_vulnerabilities-IsDistinct vs (add_finding v.full_path (vulnerability_finding v) m)
        (add_finding-IsDistinct v.full_path (vulnerability_finding v) m d)

  abbrev pub posture_of_node : ProjectNode → RepoPosture
  posture_of_node n = project_posture n.visibility n.archived n.security_scanners n.branch_rules

  -- The posture of the last node of a path.
  abbrev pub posture_in : String → List ProjectNode → Option RepoPosture → Option RepoPosture
  posture_in n [] before = before
  posture_in n (p ∷ ps) before =
      posture_in n ps (if p.full_path == n then some (posture_of_node p) else before)

  map_project_posture-append :
      (m : Map String RepoPosture) (xs ys : List ProjectNode)
      → map_project_posture (map_project_posture m xs) ys ≡ map_project_posture m (xs ++ ys)
  unfolding map_project_posture
  map_project_posture-append m [] ys = refl
  map_project_posture-append m (x ∷ xs) ys =
      map_project_posture-append (insert x.full_path (posture_of_node x) m) xs ys

  pub map_project_posture-IgnoresPages : IgnoresPages map_project_posture
  unfolding map_project_posture
  map_project_posture-IgnoresPages = (λ m. refl, map_project_posture-append)

  pub lookup-map_project_posture :
      (n : String) (ps : List ProjectNode) (m : Map String RepoPosture)
      → lookup n (map_project_posture m ps) ≡ posture_in n ps (lookup n m)
  unfolding map_project_posture
  lookup-map_project_posture n [] m = refl
  lookup-map_project_posture n (p ∷ ps) m =
      let now = posture_of_node p in
      lookup-map_project_posture n ps (insert p.full_path now m)
      ∙ ap (λ o. posture_in n ps o) (lookup-adjust now (λ _. now) p.full_path n m)

  pub map_project_posture-IsDistinct :
      (ps : List ProjectNode) (m : Map String RepoPosture)
      → IsDistinct (keys m)
      → IsDistinct (keys (map_project_posture m ps))
  unfolding map_project_posture
  map_project_posture-IsDistinct [] m d = d
  map_project_posture-IsDistinct (p ∷ ps) m d =
      let now = posture_of_node p in
      map_project_posture-IsDistinct ps (insert p.full_path now m)
        (adjust-IsDistinct now (λ _. now) p.full_path m d)
