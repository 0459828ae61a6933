-- ===== src/Controller/Rendered.antt =====
-- The Jobs that internal/controller/render.go renders.
use scm_metrics_exporter.Prelude.{String, ◌≡◌, refl, true, ◌&&◌, string_eq, beq_refl}
use scm_metrics_exporter.Prelude.Assoc.{lookup}
use scm_metrics_exporter.Prelude.Text.{Unicode}
use scm_metrics_exporter.Api.{GitHubSpec, GitLabSpec, Resource}
use scm_metrics_exporter.Controller.Render.{selector_labels, collection_job, github_job, gitlab_job}
use scm_metrics_exporter.Controller.Cluster.{selects, is_active, has_labels}

module _ ⦃u : Unicode⦄ where
  labels-selected :
      (name : String) → has_labels (selector_labels name) (selector_labels name) ≡ true
  unfolding selector_labels lookup
  labels-selected name = rw (beq_refl name) refl

  -- A Job that is rendered for a GitHub resource is active and is found by the resource's labels.
  pub github_job-selected :
      (cr : Resource GitHubSpec) (image repo : String)
      → (selects cr.namespace (selector_labels cr.name) (github_job cr image repo)
          && is_active (github_job cr image repo))
        ≡ true
  unfolding github_job collection_job
  github_job-selected cr image repo = rw (beq_refl cr.namespace, labels-selected cr.name) refl

  pub gitlab_job-selected :
      (cr : Resource GitLabSpec) (image repo : String)
      → (selects cr.namespace (selector_labels cr.name) (gitlab_job cr image repo)
          && is_active (gitlab_job cr image repo))
        ≡ true
  unfolding gitlab_job collection_job
  gitlab_job-selected cr image repo = rw (beq_refl cr.namespace, labels-selected cr.name) refl
