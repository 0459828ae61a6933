-- ===== src/GitLab/History.antt =====
-- What the pipelines of a GitLab project (repo.go) come to.
use scm_metrics_exporter.Prelude.{
  ℕ, ◌+◌, String, ◌≡◌, refl, sym, ap, subst, ◌∙◌, inl, inr, Bool, ◌&&◌, none, List, [], ◌∷◌, ◌++◌,
  count, contains, IsDistinct, if◌then◌else◌, ◌==◌, string_eq, Bool-cases, eq_of_beq, arith,
}
use scm_metrics_exporter.Prelude.Assoc.{
  keys, get, or_else, lookup, adjust, get-adjust, adjust-IsDistinct,
}
use scm_metrics_exporter.Prelude.Errors.{Result, Gives, guarded, failed}
use scm_metrics_exporter.Prelude.Sort.{IsSorted}
use scm_metrics_exporter.Prelude.Text.{Unicode, to_lower}
use scm_metrics_exporter.Provider.Tally.{Tally, count_in, workflow_run_stats_from_tally}
use scm_metrics_exporter.Provider.Tally.Order.{leb_stat, workflow_run_stats_from_tally_lem}
use scm_metrics_exporter.GitLab.{HttpResponse, rest_pages, default_max_pages}
use scm_metrics_exporter.GitLab.Pages.{
  IgnoresPages, rest_items, rest_pages-result, rest_fails, rest_pages-error,
}
use scm_metrics_exporter.GitLab.Rest.{page_at}
use scm_metrics_exporter.GitLab.Repo.{
  Pipeline, terminal_pipeline_statuses, tally_pipeline, tally_pipelines, pipelines_path,
  collect_pipeline_runs,
}

module _ ⦃u : Unicode⦄ where
  abbrev pub source_of : Pipeline → String
  source_of pl = if pl.source == "" then "unknown" else pl.source

  -- A pipeline that has ended, with a source and a status.
  abbrev pub ended_as : String → String → Pipeline → Bool
  ended_as w c pl =
      contains terminal_pipeline_statuses (to_lower pl.status)
      && (source_of pl == w && to_lower pl.status == c)

  abbrev tallied_at : String → String → Tally → ℕ
  tallied_at w c tally = get 0 c (get [] w tally)

  tallied_at-adjust :
      (w c v d : String) (tally : Tally)
      → tallied_at w c (adjust [] (adjust 0 (λ n. n + 1) d) v tally)
        ≡ (if v == w && d == c then 1 else 0) + tallied_at w c tally
  tallied_at-adjust w c v d tally = elim (Bool-cases (v == w)) [
    | inr e ↦
        ap (λ m. get 0 c m) (get-adjust [] (adjust 0 (λ n. n + 1) d) v w tally) ∙ rw e (omega arith)
    | inl e ↦
        ap (λ m. get 0 c m) (get-adjust [] (adjust 0 (λ n. n + 1) d) v w tally)
        ∙ rw e (
            get-adjust 0 (λ n. n + 1) d c (get [] v tally)
            ∙ subst
                (λ x.
                  (if d == c then get 0 d (get [] v tally) + 1 else get 0 c (get [] v tally))
                  ≡ (if d == c then 1 else 0) + get 0 c (get [] x tally))
                (eq_of_beq v w e)
                (elim (Bool-cases (d == c)) [
                  | inr f ↦ rw f (omega arith)
                  | inl f ↦ rw f (
                      subst (λ x. get 0 d (get [] v tally) + 1 ≡ 1 + get 0 x (get [] v tally))
                        (eq_of_beq d c f) (omega arith))
                ]))
  ]

  tallied_at-tally_pipeline :
      (w c : String) (pl : Pipeline) (tally : Tally)
      → tallied_at w c (tally_pipeline tally pl)
        ≡ (if ended_as w c pl then 1 else 0) + tallied_at w c tally
  unfolding tally_pipeline
  tallied_at-tally_pipeline w c pl tally =
      elim (Bool-cases (contains terminal_pipeline_statuses (to_lower pl.status))) [
        | inl e ↦ rw e (tallied_at-adjust w c (source_of pl) (to_lower pl.status) tally)
        | inr e ↦ rw e (omega arith)
      ]

  tally_pipelines-append :
      (tally : Tally) (xs ys : List Pipeline)
      → tally_pipelines (tally_pipelines tally xs) ys ≡ tally_pipelines tally (xs ++ ys)
  unfolding tally_pipelines
  tally_pipelines-append tally [] ys = refl
  tally_pipelines-append tally (x ∷ xs) ys = tally_pipelines-append (tally_pipeline tally x) xs ys

  tally_pipelines-IgnoresPages : IgnoresPages tally_pipelines
  unfolding tally_pipelines
  tally_pipelines-IgnoresPages = (λ t. refl, tally_pipelines-append)

  tallied_at-tally_pipelines :
      (w c : String) (pls : List Pipeline) (tally : Tally)
      → tallied_at w c (tally_pipelines tally pls) ≡ count (ended_as w c) pls + tallied_at w c tally
  unfolding tally_pipelines
  tallied_at-tally_pipelines w c [] tally = omega arith
  tallied_at-tally_pipelines w c (pl ∷ pls) tally =
      tallied_at-tally_pipelines w c pls (tally_pipeline tally pl)
      ∙ ap (λ n. count (ended_as w c) pls + n) (tallied_at-tally_pipeline w c pl tally)
      ∙ omega arith

  tally_pipeline-IsDistinct :
      (pl : Pipeline) (tally : Tally)
      → IsDistinct (keys tally)
      → IsDistinct (keys (tally_pipeline tally pl))
  unfolding tally_pipeline
  tally_pipeline-IsDistinct pl tally d =
      elim (Bool-cases (contains terminal_pipeline_statuses (to_lower pl.status))) [
        | inl e ↦ rw e (
            adjust-IsDistinct [] (adjust 0 (λ n. n + 1) (to_lower pl.status)) (source_of pl) tally
              d)
        | inr e ↦ rw e d
      ]

  tally_pipelines-IsDistinct :
      (pls : List Pipeline) (tally : Tally)
      → IsDistinct (keys tally)
      → IsDistinct (keys (tally_pipelines tally pls))
  unfolding tally_pipelines
  tally_pipelines-IsDistinct [] tally d = d
  tally_pipelines-IsDistinct (pl ∷ pls) tally d =
      tally_pipelines-IsDistinct pls (tally_pipeline tally pl)
        (tally_pipeline-IsDistinct pl tally d)

  -- The rows of a tally of pipelines are sorted, and count those of each source and status.
  tally_rows :
      (w c : String) (pls : List Pipeline)
      → IsSorted leb_stat (workflow_run_stats_from_tally (tally_pipelines [] pls))
        × (or_else 0 (count_in w c (workflow_run_stats_from_tally (tally_pipelines [] pls)))
            ≡ count (ended_as w c) pls)
  unfolding lookup
  tally_rows w c pls =
      let (sorted, counts) =
        workflow_run_stats_from_tally_lem (tally_pipelines [] pls)
          (tally_pipelines-IsDistinct pls [] tt) in
      (
        sorted,
        ap (λ o. or_else 0 o) (counts w c) ∙ tallied_at-tally_pipelines w c pls [] ∙ omega arith,
      )

  module _ (http : String → Result HttpResponse) (decode : String → Result (List Pipeline))
      (path since : String) where
    abbrev pub pipelines_read : List Pipeline
    pipelines_read =
        rest_items decode (page_at http (pipelines_path path since)) default_max_pages "1"

    -- The collection of a project's pipelines fails exactly if one of its first hundred pages fails,
    -- up to the last one. Otherwise the rows are sorted by source and then by status, and give for
    -- each source and status the number of the ended pipelines on those pages.
    pub collect_pipeline_runs_lem :
        (w c : String)
        → (failed (collect_pipeline_runs http decode path since)
            ≡ rest_fails decode (page_at http (pipelines_path path since)) default_max_pages "1")
          × Gives
              (λ rows.
                IsSorted leb_stat rows
                × (or_else 0 (count_in w c rows) ≡ count (ended_as w c) pipelines_read))
              (collect_pipeline_runs http decode path since)
    unfolding collect_pipeline_runs
    collect_pipeline_runs_lem w c =
        let get = page_at http (pipelines_path path since) in
        let s = rest_pages decode tally_pipelines get default_max_pages "1" [] none in
        let whole : s.result ≡ tally_pipelines [] pipelines_read =
          rest_pages-result tally_pipelines decode get default_max_pages "1" [] none
            tally_pipelines-IgnoresPages in
        let (fails, gives) = guarded _ s.error (workflow_run_stats_from_tally s.result) (
          subst
            (λ tally.
              IsSorted leb_stat (workflow_run_stats_from_tally tally)
              × (or_else 0 (count_in w c (workflow_run_stats_from_tally tally))
                  ≡ count (ended_as w c) pipelines_read))
            (sym whole) (tally_rows w c pipelines_read)) in
        (fails ∙ rest_pages-error tally_pipelines decode get default_max_pages "1" [] none, gives)
