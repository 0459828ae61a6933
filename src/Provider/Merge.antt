-- ===== src/Provider/Merge.antt =====
-- What mergeRepos of internal/provider/github and of internal/provider/gitlab share: a map from
-- names to repositories, its rows in the order of their names, and sortFindings.
pub mod Findings
use scm_metrics_exporter.Prelude.{
  String, ◌≡◌, refl, sym, ap, ◌∙◌, Bool, true, false, Option, none, some, List, [], ◌∷◌, ◌++◌, map,
  contains, IsDistinct, if◌then◌else◌, ◌==◌, string_eq, arith, Bool-cases, eq_of_beq, inl, inr,
}
use text.Mathlib.TextEquality.{eq_iff}
use mathlib.Core.List.{Perm, append-nil}
use scm_metrics_exporter.Prelude.Assoc.{
  Map, keys, get, adjust, lookup, lookup-adjust, lookup-none, adjust-IsDistinct,
}
use scm_metrics_exporter.Prelude.Order.{
  leb_text, leb_text_trans, leb_text_total, leb_text_antisymm, leb_text-IsTotalOrder, IsTotalOrder,
}
use scm_metrics_exporter.Prelude.Sort.{sort, sort-IsSorted, sort-perm, IsSorted}
use scm_metrics_exporter.Prelude.Keys.{contains-sort, sort-IsDistinct}
use scm_metrics_exporter.Provider.{Finding, RepoMetrics}

abbrev pub no_metrics : String → RepoMetrics
no_metrics name = record {
  name = name;
  open_review_items = 0;
  findings = [];
  posture = none;
  workflow_runs = [];
  resolved_findings = [];
}

-- The map of mergeRepos, one entry for each repository's name.
abbrev pub Merged : Type 0
Merged = Map String RepoMetrics

-- The order of sortFindings: by category, then by severity.
unfoldable pub finding_le : Finding → Finding → Bool
finding_le a b =
    if a.category == b.category
    then leb_text a.severity b.severity
    else leb_text a.category b.category

-- The entry of a name, with nothing in it where there is none.
abbrev pub at : Merged → String → RepoMetrics
at m name = get (no_metrics name) name m

abbrev pub with_sorted_findings : RepoMetrics → RepoMetrics
with_sorted_findings r = record r { findings = sort finding_le r.findings }

unfoldable pub merged_rows : Merged → List String → List RepoMetrics
merged_rows m [] = []
merged_rows m (name ∷ names) = with_sorted_findings (at m name) ∷ merged_rows m names

pub at-adjust :
    (f : RepoMetrics → RepoMetrics) (k n : String) (m : Merged)
    → at (adjust (no_metrics k) f k m) n ≡ (if k == n then f (at m k) else at m n)
at-adjust f k n m = ground (arith, lookup-adjust (no_metrics k) f k n m)

-- The entry of a name after its entry is changed.
pub at-adjust-same :
    (f : RepoMetrics → RepoMetrics) (k n : String) (m : Merged)
    → at (adjust (no_metrics k) f k m) n ≡ (if k == n then f (at m n) else at m n)
at-adjust-same f k n m = elim (Bool-cases (k == n)) [
  | inl e ↦ rw (at-adjust f k n m, e) (ap (λ j. f (at m j)) (eq_of_beq k n e))
  | inr e ↦ rw (at-adjust f k n m, e) refl
]

-- A change that appends findings to one entry.
pub adjust-findings :
    (f : RepoMetrics → RepoMetrics) (more : List Finding) (k n : String) (m : Merged)
    → ((r : RepoMetrics) → (f r).findings ≡ r.findings ++ more)
    → (at (adjust (no_metrics k) f k m) n).findings
      ≡ (at m n).findings ++ (if k == n then more else [])
adjust-findings f more k n m grows = elim (Bool-cases (k == n)) [
  | inl e ↦
      rw (at-adjust f k n m, e)
        (grows (at m k) ∙ ap (λ j. (at m j).findings ++ more) (eq_of_beq k n e))
  | inr e ↦ rw (at-adjust f k n m, e) (sym (append-nil (at m n).findings))
]

-- Each entry has the name of its key.
abbrev pub HasNames : Merged → Type 0
HasNames m = (n : String) → (at m n).name ≡ n

pub empty-HasNames : HasNames []
unfolding lookup
empty-HasNames n = refl

pub adjust-HasNames :
    (f : RepoMetrics → RepoMetrics) (k : String) (m : Merged)
    → ((r : RepoMetrics) → (f r).name ≡ r.name)
    → HasNames m
    → HasNames (adjust (no_metrics k) f k m)
adjust-HasNames f k m keeps h n =
    ground (arith, at-adjust f k n m, keeps (at m k), h k, h n, eq_iff k n)

-- The first row of a name.
abbrev pub row_of : String → List RepoMetrics → Option RepoMetrics
row_of n [] = none
row_of n (r ∷ rs) = if r.name == n then some r else row_of n rs

names-merged_rows :
    (m : Merged) (names : List String)
    → HasNames m
    → map (λ r. r.name) (merged_rows m names) ≡ names
unfolding merged_rows
names-merged_rows m [] h = refl
names-merged_rows m (n ∷ ns) h = cc (h n, names-merged_rows m ns h)

row_of-merged_rows :
    (m : Merged) (names : List String) (n : String)
    → HasNames m
    → row_of n (merged_rows m names)
      ≡ (if contains names n then some (with_sorted_findings (at m n)) else none)
unfolding merged_rows
row_of-merged_rows m [] n h = refl
row_of-merged_rows m (k ∷ ks) n h = ground (arith, h k, eq_iff k n, row_of-merged_rows m ks n h)

-- The rows of a map: one for each key, in the order of the keys.
abbrev pub rows : Merged → List RepoMetrics
rows m = merged_rows m (sort leb_text (keys m))

pub names-rows : (m : Merged) → HasNames m → map (λ r. r.name) (rows m) ≡ sort leb_text (keys m)
names-rows m h = names-merged_rows m (sort leb_text (keys m)) h

-- One row of findings for each key: the findings of a name, none where it has no row.
abbrev pub findings_of : Option RepoMetrics → List Finding
findings_of none = []
findings_of (some r) = r.findings

pub row_of-rows :
    (m : Merged) (n : String)
    → HasNames m
    → row_of n (rows m)
      ≡ (if contains (keys m) n then some (with_sorted_findings (at m n)) else none)
row_of-rows m n h =
    row_of-merged_rows m (sort leb_text (keys m)) n h
    ∙ ap (λ b. if b then some (with_sorted_findings (at m n)) else none) (contains-sort n (keys m))

finding_le_trans :
    (a b c : Finding) → finding_le a b ≡ true → finding_le b c ≡ true → finding_le a c ≡ true
unfolding finding_le
finding_le_trans a b c h k = ground (
  arith,
  eq_iff a.category b.category,
  eq_iff b.category c.category,
  eq_iff a.category c.category,
  leb_text_trans a.severity b.severity c.severity,
  leb_text_trans a.category b.category c.category,
  leb_text_antisymm a.category b.category,
)

finding_le_total : (a b : Finding) → finding_le a b ≡ false → finding_le b a ≡ true
unfolding finding_le
finding_le_total a b h = ground (
  arith,
  eq_iff a.category b.category,
  eq_iff b.category a.category,
  leb_text_total a.severity b.severity,
  leb_text_total a.category b.category,
)

pub finding_le-IsTotalOrder : IsTotalOrder finding_le
finding_le-IsTotalOrder = record { le_trans = finding_le_trans; le_total = finding_le_total }

absent : (m : Merged) (n : String) → contains (keys m) n ≡ false → at m n ≡ no_metrics n
absent m n h = rw (lookup-none n m h) refl

row_of-rows-findings :
    (m : Merged) (n : String)
    → HasNames m
    → findings_of (row_of n (rows m)) ≡ sort finding_le (at m n).findings
row_of-rows-findings m n h = elim (Bool-cases (contains (keys m) n)) [
  | inl e ↦ rw (row_of-rows m n h, e) refl
  | inr e ↦ rw (row_of-rows m n h, e, absent m n e) (unfold sort in refl)
]

-- The rows of a map with one entry for each key: their names are sorted and distinct, and the
-- findings of a name are those of its entry, sorted.
pub rows_lem :
    (m : Merged) (n : String)
    → HasNames m
    → IsDistinct (keys m)
    → IsSorted leb_text (map (λ r. r.name) (rows m))
      × IsDistinct (map (λ r. r.name) (rows m))
      × (contains (map (λ r. r.name) (rows m)) n ≡ contains (keys m) n)
      × Perm (findings_of (row_of n (rows m))) (at m n).findings
      × IsSorted finding_le (findings_of (row_of n (rows m)))
rows_lem m n h d =
    rw (names-rows m h, row_of-rows-findings m n h)
      (
        sort-IsSorted leb_text leb_text-IsTotalOrder (keys m),
        sort-IsDistinct (keys m) d,
        contains-sort n (keys m),
        sort-perm finding_le (at m n).findings,
        sort-IsSorted finding_le finding_le-IsTotalOrder (at m n).findings,
      )
