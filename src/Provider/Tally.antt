-- ===== src/Provider/Tally.antt =====
-- `WorkflowRunStatsFromTally` of internal/provider/provider.go.
pub mod Order
use scm_metrics_exporter.Prelude.{
  ℕ, String, ◌≡◌, refl, ap, ◌∙◌, true, false, ◌||◌, Option, none, some, List, [], ◌∷◌, ◌++◌, arith,
  if◌then◌else◌, ◌==◌, string_eq, contains, IsDistinct,
}
use text.Mathlib.TextEquality.{eq_iff}
use scm_metrics_exporter.Prelude.Assoc.{Map, keys, lookup, get, lookup-none}
use scm_metrics_exporter.Prelude.Order.{leb_text}
use scm_metrics_exporter.Prelude.Sort.{sort, place}
use scm_metrics_exporter.Prelude.Keys.{contains-sort}
use scm_metrics_exporter.Provider.{WorkflowRunStat}

-- workflow -> conclusion -> count
abbrev pub Tally : Type 0
Tally = Map String (Map String ℕ)

-- The rows of one workflow, at its sorted conclusions.
unfoldable pub rows : String → Map String ℕ → List String → List WorkflowRunStat
rows w counts [] = []
rows w counts (c ∷ cs) =
    record { workflow = w; conclusion = c; count = get 0 c counts } ∷ rows w counts cs

unfoldable pub all_rows : Tally → List String → List WorkflowRunStat
all_rows tally [] = []
all_rows tally (w ∷ ws) =
    let counts = get [] w tally in rows w counts (sort leb_text (keys counts)) ++ all_rows tally ws

unfoldable pub workflow_run_stats_from_tally : Tally → List WorkflowRunStat
workflow_run_stats_from_tally tally = all_rows tally (sort leb_text (keys tally))

-- The count in a row for a workflow and a conclusion, if there is one.
abbrev pub count_in : String → String → List WorkflowRunStat → Option ℕ
count_in w c [] = none
count_in w c (r ∷ rs) =
    if r.workflow == w
    then (if r.conclusion == c then some r.count else count_in w c rs)
    else count_in w c rs

-- The count in the tally.
abbrev pub tallied : String → String → Tally → Option ℕ
tallied w c tally = lookup c (get [] w tally)

-- Rows of another workflow do not count.
count_in-rows :
    (w v c : String) (m : Map String ℕ) (cs : List String) (rest : List WorkflowRunStat)
    → count_in w c (rows v m cs ++ rest) ≡ (
        if v == w
        then (if contains cs c then some (get 0 c m) else count_in w c rest)
        else count_in w c rest)
unfolding rows
count_in-rows w v c m [] rest = ground arith
count_in-rows w v c m (d ∷ cs) rest = ground (arith, eq_iff d c, count_in-rows w v c m cs rest)

lookup-eq-some :
    (c : String) (m : Map String ℕ) → contains (keys m) c ≡ true → lookup c m ≡ some (get 0 c m)
unfolding lookup
lookup-eq-some c [] h = cc
lookup-eq-some c ((d, n) ∷ m) h = ground (arith, lookup-eq-some c m)

pub count_in-all_rows :
    (w c : String) (tally : Tally) (ws : List String)
    → count_in w c (all_rows tally ws) ≡ (if contains ws w then tallied w c tally else none)
unfolding all_rows
count_in-all_rows w c tally [] = refl
count_in-all_rows w c tally (v ∷ ws) =
    let m = get [] v tally in
    let cs = sort leb_text (keys m) in
    count_in-rows w v c m cs (all_rows tally ws)
    ∙ ground (
      arith,
      eq_iff v w,
      count_in-all_rows w c tally ws,
      contains-sort c (keys m),
      lookup-eq-some c m,
      lookup-none c m,
    )
