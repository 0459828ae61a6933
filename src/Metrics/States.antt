-- ===== src/Metrics/States.antt =====
-- The findings-by-state gauge of internal/metrics/metrics.go, whose map is keyed by
-- "category\x00state".
use Prim.Native.Char.{nul}
use text.Mathlib.TextLemmas.{nil-append, cons-append}
use text.Mathlib.TextEquality.{eq_iff}
use scm_metrics_exporter.Prelude.{
  ◌+◌, String, ◌≡◌, refl, sym, ap, ap₂, ◌∙◌, ◌&&◌, List, [], ◌∷◌, map, count, count-append, All,
  ◌==◌, nat_eq, string_eq, inl, inr, Bool-cases, eq_of_beq, beq_refl, arith,
}
use scm_metrics_exporter.Prelude.Assoc.{get}
use scm_metrics_exporter.Prelude.Tallies.{get-tally}
use scm_metrics_exporter.Prelude.Text.Split.{Lacks}
use scm_metrics_exporter.Provider.{Finding, ResolvedFinding, RepoMetrics, state_open}
use scm_metrics_exporter.Metrics.{state_key, cut, state_keys, state_counts}

-- A key is cut into the category and the state that it was made of, if the category holds no NUL.
cut-state_key :
    (category state : String)
    → Lacks nul category
    → cut nul (state_key category state) ≡ (category, state)
unfolding state_key cut
cut-state_key String.[] state h = rw nil-append refl
cut-state_key (String.◌∷◌ c s) state (n, h) = rw cons-append (rw (n, cut-state_key s state h) refl)

state_key-beq :
    (a x c s : String)
    → Lacks nul a
    → Lacks nul c
    → (state_key a x == state_key c s) ≡ (a == c && x == s)
state_key-beq a x c s h k = elim (Bool-cases (state_key a x == state_key c s)) [
  | inl e ↦
      let p : (a, x) ≡ (c, s) =
        sym (cut-state_key a x h) ∙ ap (cut nul) (eq_of_beq _ _ e) ∙ cut-state_key c s k in
      rw (ap (λ q. q.0) p, ap (λ q. q.1) p) (rw (beq_refl c, beq_refl s) (beq_refl (state_key c s)))
  | inr e ↦ ground (
    arith,
    eq_iff a c,
    eq_iff x s,
    eq_iff (state_key a x) (state_key c s),
    (λ (p : a ≡ c) (q : x ≡ s). ap₂ state_key p q),
  )
]

count-keys :
    {A : Type 0} (category state : A → String) (c s : String) (xs : List A)
    → All (λ x. Lacks nul (category x)) xs
    → Lacks nul c
    → count (λ k. k == state_key c s) (map (λ x. state_key (category x) (state x)) xs)
      ≡ count (λ x. category x == c && state x == s) xs
count-keys category state c s [] h k = refl
count-keys category state c s (x ∷ xs) (n, h) k =
    rw (state_key-beq (category x) (state x) c s n k, count-keys category state c s xs h k) refl

-- At categories without a NUL, the value for a category and a state is the number of the
-- repository's resolved findings in them, with its open findings in the state "open".
pub state_counts_lem :
    (repo : RepoMetrics) (c s : String)
    → All (λ f. Lacks nul f.category) repo.findings
    → All (λ rf. Lacks nul rf.category) repo.resolved_findings
    → Lacks nul c
    → (get 0 (state_key c s) (state_counts repo)
        ≡ count (λ f. f.category == c && state_open == s) repo.findings
          + count (λ rf. rf.category == c && rf.state == s) repo.resolved_findings)
      × (cut nul (state_key c s) ≡ (c, s))
unfolding state_counts
state_counts_lem repo c s h k n = (
  get-tally (λ x. x) (state_key c s) (state_keys repo)
      ∙ count-append (λ x. x == state_key c s)
          (map (λ f. state_key f.category state_open) repo.findings) _
      ∙ ap₂ ◌+◌ (count-keys (λ (f : Finding). f.category) (λ f. state_open) c s repo.findings h n) (
          count-keys (λ (rf : ResolvedFinding). rf.category) (λ rf. rf.state) c s
            repo.resolved_findings k n),
  cut-state_key c s n,
)
