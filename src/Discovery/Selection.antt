-- ===== src/Discovery/Selection.antt =====
-- Which repositories the selectors of internal/discovery take.
use mathlib.Core.List.{append_assoc, append-nil}
use scm_metrics_exporter.Prelude.{
  String, ◌≡◌, refl, sym, ◌∙◌, Bool, true, false, not, ◌&&◌, ◌||◌, Option, none, some, List, [],
  ◌∷◌, ◌++◌, map, filter, any, is_empty, if◌then◌else◌, ◌==◌, string_eq, arith,
}
use scm_metrics_exporter.Prelude.Text.{Unicode, equal_fold}
use scm_metrics_exporter.Prelude.Glob.{path_match}
use scm_metrics_exporter.Discovery.{
  Filter, Selector, Repository, filter_is_empty, selects, same_bool, archived_differs, globs,
  any_glob, contains_fold, any_shared, matches, append_matching,
}

-- A criterion holds of everything if it is unset.
abbrev pub unset_or : List String → Bool → Bool
unset_or [] b = true
unset_or (_ ∷ _) b = b

abbrev pub archived_is : Option Bool → Bool → Bool
archived_is none b = true
archived_is (some a) b = same_bool b a

any_glob-any :
    (patterns : List String) (name : String)
    → any_glob patterns name ≡ any (λ p. globs (path_match p name)) patterns
unfolding any_glob
any_glob-any [] name = refl
any_glob-any (p ∷ ps) name = ground (arith, any_glob-any ps name)

criterion : (xs : List String) (b : Bool) → (not (is_empty xs) && not b) ≡ not (unset_or xs b)
criterion [] b = refl
criterion (x ∷ xs) b = refl

archived_criterion : (o : Option Bool) (b : Bool) → archived_differs o b ≡ not (archived_is o b)
archived_criterion none b = refl
archived_criterion (some a) b = refl

conjunction :
    (a b c d : Bool)
    → (if not a
        then false
        else if not b
        then false
        else if not c
        then false
        else if not d
        then false
        else true)
      ≡ (((a && b) && c) && d)
conjunction a b c d = ground arith

module _ ⦃u : Unicode⦄ where
  -- All the criteria of a filter, independently: the archived flag, some visibility and some topic in
  -- any case, and some pattern.
  abbrev pub satisfies : Repository → Filter → Bool
  satisfies r f =
      ((archived_is f.archived r.archived
          && unset_or f.visibility (any (λ v. equal_fold v r.visibility) f.visibility))
        && unset_or f.topics (any (λ w. any (λ t. equal_fold t w) r.topics) f.topics))
      && unset_or f.name_patterns (any (λ p. globs (path_match p r.name)) f.name_patterns)

  -- The repositories with a name that satisfy the inclusion, and do not satisfy the exclusion unless
  -- that sets no criterion.
  abbrev pub chosen : Selector → Repository → Bool
  chosen sel r =
      not (r.name == "")
      && (satisfies r sel.include && (filter_is_empty sel.exclude || not (satisfies r sel.exclude)))

  contains_fold-any :
      (set : List String) (v : String) → contains_fold set v ≡ any (λ s. equal_fold s v) set
  unfolding contains_fold
  contains_fold-any [] v = refl
  contains_fold-any (s ∷ set) v = ground (arith, contains_fold-any set v)

  any_shared-any :
      (have want : List String)
      → any_shared have want ≡ any (λ w. any (λ t. equal_fold t w) have) want
  unfolding any_shared
  any_shared-any have [] = refl
  any_shared-any have (w ∷ want) =
      ground (arith, any_shared-any have want, contains_fold-any have w)

  matches-satisfies : (r : Repository) (f : Filter) → matches r f ≡ satisfies r f
  unfolding matches
  matches-satisfies r f =
      rw
        (
          contains_fold-any f.visibility r.visibility,
          any_shared-any r.topics f.topics,
          any_glob-any f.name_patterns r.name,
        )
        (criteria f.archived r.archived f.visibility f.topics f.name_patterns _ _ _)
    where
      criteria :
          (o : Option Bool) (b : Bool) (vs ts ps : List String) (x y z : Bool)
          → (if archived_differs o b
              then false
              else if not (is_empty vs) && not x
              then false
              else if not (is_empty ts) && not y
              then false
              else if not (is_empty ps) && not z
              then false
              else true)
            ≡ (((archived_is o b && unset_or vs x) && unset_or ts y) && unset_or ps z)
      criteria o b vs ts ps x y z =
          rw (archived_criterion o b, criterion vs x, criterion ts y, criterion ps z)
            (conjunction (archived_is o b) (unset_or vs x) (unset_or ts y) (unset_or ps z))

  -- A listing appends the names of exactly the repositories that have a name, satisfy every criterion
  -- of the inclusion, and do not satisfy every criterion of the exclusion (an exclusion without
  -- criteria excludes nothing), in their order.
  pub append_matching_lem :
      (sel : Selector) (rs : List Repository) (out : List String)
      → append_matching out rs sel ≡ out ++ map (λ r. r.name) (filter (chosen sel) rs)
  unfolding append_matching selects
  append_matching_lem sel [] out = sym (append-nil out)
  append_matching_lem sel (r ∷ rs) out =
      append_matching_lem sel rs _
      ∙ rw (matches-satisfies r sel.include, matches-satisfies r sel.exclude)
          (take_one (not (r.name == "")) (satisfies r sel.include) (filter_is_empty sel.exclude)
            (satisfies r sel.exclude))
    where
      take_one :
          (n i e x : Bool)
          → (if n && (if not i then false else if not e && x then false else true)
                then out ++ r.name ∷ []
                else out)
              ++ map (λ r. r.name) (filter (chosen sel) rs)
            ≡ out
              ++ map
                  (λ r. r.name)
                  (if n && (i && (e || not x))
                    then r ∷ filter (chosen sel) rs
                    else filter (chosen sel) rs)
      take_one false i e x = refl
      take_one true false e x = refl
      take_one true true true x = append_assoc out (r.name ∷ []) _
      take_one true true false true = refl
      take_one true true false false = append_assoc out (r.name ∷ []) _
