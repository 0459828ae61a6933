-- ===== src/Provider/Tally/Order.antt =====
-- The order and the completeness of the workflow-run rows.
use scm_metrics_exporter.Prelude.{
  ℕ, String, ◌≡◌, refl, ◌∙◌, Bool, true, false, none, List, [], ◌∷◌, arith, if◌then◌else◌,
  string_eq, contains, IsDistinct, All, All-append, All-map,
}
use text.Mathlib.TextEquality.{eq_iff}
use scm_metrics_exporter.Prelude.Assoc.{Map, keys, lookup, get, lookup-none}
use scm_metrics_exporter.Prelude.Order.{
  leb_text, leb_text_refl, leb_text-IsTotalOrder, leb_text_antisymm, lex,
}
use scm_metrics_exporter.Prelude.Sort.{sort, IsSorted, sort-IsSorted, IsSorted-append}
use scm_metrics_exporter.Prelude.Keys.{contains-sort, sort-IsDistinct}
use scm_metrics_exporter.Provider.{WorkflowRunStat}
use scm_metrics_exporter.Provider.Tally.{
  Tally, rows, all_rows, workflow_run_stats_from_tally, count_in, tallied, count_in-all_rows,
}

abbrev pub leb_stat : WorkflowRunStat → WorkflowRunStat → Bool
leb_stat = lex (λ r. r.workflow) (λ r. r.conclusion)

All-rows :
    (P : String → Type 0) (w : String) (m : Map String ℕ) (cs : List String)
    → P w
    → All (λ r. P r.workflow) (rows w m cs)
unfolding rows
All-rows P w m [] p = tt
All-rows P w m (c ∷ cs) p = (p, All-rows P w m cs p)

All-all_rows :
    (P : String → Type 0) (tally : Tally) (ws : List String)
    → All P ws
    → All (λ r. P r.workflow) (all_rows tally ws)
unfolding all_rows
All-all_rows P tally [] h = tt
All-all_rows P tally (w ∷ ws) (p, h) =
    All-append (λ r. P r.workflow) (rows w _ _) (all_rows tally ws) (All-rows P w _ _ p)
      (All-all_rows P tally ws h)

row-le-rows :
    (w c : String) (n : ℕ) (m : Map String ℕ) (cs : List String)
    → All (λ d. leb_text c d ≡ true) cs
    → All
        (λ r. leb_stat (record { workflow = w; conclusion = c; count = n }) r ≡ true)
        (rows w m cs)
unfolding rows
row-le-rows w c n m [] h = tt
row-le-rows w c n m (d ∷ cs) (p, h) = (rw (leb_text_refl w, p) refl, row-le-rows w c n m cs h)

rows-IsSorted :
    (w : String) (m : Map String ℕ) (cs : List String)
    → IsSorted leb_text cs
    → IsSorted leb_stat (rows w m cs)
unfolding rows
rows-IsSorted w m [] s = tt
rows-IsSorted w m (c ∷ cs) (l, s) = (row-le-rows w c (get 0 c m) m cs l, rows-IsSorted w m cs s)

-- A workflow that comes strictly before another.
abbrev Before : String → String → Type 0
Before w v = (leb_text w v ≡ true) × (leb_text v w ≡ false)

All-Before :
    (w : String) (ws : List String)
    → contains ws w ≡ false
    → All (λ v. leb_text w v ≡ true) ws
    → All (Before w) ws
All-Before w [] n h = tt
All-Before w (v ∷ ws) n (p, h) =
    ((p, ground (arith, leb_text_antisymm w v, eq_iff v w)), All-Before w ws (ground arith) h)

Before-rows :
    (w : String) (m : Map String ℕ) (cs : List String) (rest : List WorkflowRunStat)
    → All (λ r. Before w r.workflow) rest
    → All (λ x. All (λ y. leb_stat x y ≡ true) rest) (rows w m cs)
unfolding rows
Before-rows w m [] rest h = tt
Before-rows w m (c ∷ cs) rest h = (
  All-map (λ r. Before w r.workflow) _ (λ r b. rw (b.0, b.1) refl) rest h,
  Before-rows w m cs rest h,
)

all_rows-IsSorted :
    (tally : Tally) (ws : List String)
    → IsSorted leb_text ws
    → IsDistinct ws
    → IsSorted leb_stat (all_rows tally ws)
unfolding all_rows
all_rows-IsSorted tally [] s d = tt
all_rows-IsSorted tally (w ∷ ws) (l, s) (n, d) =
    let m = get [] w tally in
    let cs = sort leb_text (keys m) in
    IsSorted-append leb_stat (rows w m cs) (all_rows tally ws)
      (rows-IsSorted w m cs (sort-IsSorted leb_text leb_text-IsTotalOrder (keys m)))
      (all_rows-IsSorted tally ws s d)
      (Before-rows w m cs (all_rows tally ws)
        (All-all_rows (Before w) tally ws (All-Before w ws n l)))

-- The rows of a tally, whose workflows are distinct as a Go map's keys are, are sorted by workflow
-- and then by conclusion. The count that they give for a workflow and a conclusion is the tally's,
-- and they give none where the tally has none.
pub workflow_run_stats_from_tally_lem :
    (tally : Tally)
    → IsDistinct (keys tally)
    → IsSorted leb_stat (workflow_run_stats_from_tally tally)
      × ((w c : String) → count_in w c (workflow_run_stats_from_tally tally) ≡ tallied w c tally)
unfolding workflow_run_stats_from_tally lookup
workflow_run_stats_from_tally_lem tally d = (
  all_rows-IsSorted tally _ (sort-IsSorted leb_text leb_text-IsTotalOrder (keys tally))
      (sort-IsDistinct (keys tally) d),
  λ w c. count_in-all_rows w c tally _ ∙ rw (contains-sort w (keys tally)) (known w c),
)
  where
    known :
        (w c : String)
        → (if contains (keys tally) w then tallied w c tally else none) ≡ tallied w c tally
    known w c = ground (arith, lookup-none w tally)
