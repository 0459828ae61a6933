-- ===== src/Controller/Cluster.antt =====
-- The Kubernetes API that internal/controller uses, as an interface: listing and creating Jobs and
-- reading Secrets. Its documented behaviour is `IsCluster`.
use scm_metrics_exporter.Prelude.{
  String, ◌≡◌, Bool, true, false, ◌&&◌, Option, none, some, List, [], ◌∷◌, ◌++◌, if◌then◌else◌,
  ◌==◌, string_eq, nat_eq,
}
use scm_metrics_exporter.Prelude.Assoc.{Map, lookup}
use scm_metrics_exporter.Prelude.Errors.{Error, Result, ok, err}
use scm_metrics_exporter.Api.{Secret, Fetched}
use scm_metrics_exporter.Controller.Render.{Job}

pub data Created : Type 0 where
  created already_exists : Created
  create_failed : Error → Created

pub record Cluster : Type 1 where
  pub State : Type 0
  -- The Jobs of a namespace that carry some labels.
  pub list_jobs : String → Map String String → State → Result (List Job)
  pub create : Job → State → Created × State
  pub get_secret : (namespace name : String) → State → Fetched Secret
  -- All the Jobs that there are.
  pub jobs : State → List Job

abbrev has_value : String → Option String → Bool
has_value v none = false
has_value v (some w) = w == v

abbrev pub has_labels : Map String String → Map String String → Bool
has_labels [] labels = true
has_labels ((k, v) ∷ sel) labels = has_value v (lookup k labels) && has_labels sel labels

abbrev pub selects : String → Map String String → Job → Bool
selects namespace sel j = j.namespace == namespace && has_labels sel j.labels

abbrev pub is_active : Job → Bool
is_active j = j.succeeded == 0 && j.failed == 0

-- A Job's key.
abbrev pub same_key : Job → Job → Bool
same_key j k = j.namespace == k.namespace && j.name == k.name

abbrev pub exists_key : Job → List Job → Bool
exists_key j [] = false
exists_key j (k ∷ ks) = if same_key k j then true else exists_key j ks

module _ (c : Cluster) where
  open c use {State, list_jobs, create, jobs}

  -- What a creation does to the Jobs.
  abbrev pub Creates : Job → List Job → Created → List Job → Type 0
  Creates j before created after = (exists_key j before ≡ false) × (after ≡ before ++ j ∷ [])
  Creates j before already_exists after = (exists_key j before ≡ true) × (after ≡ before)
  Creates j before (create_failed e) after = after ≡ before

  -- Names are unique in a namespace, and a creation says what it did. A list is not assumed to be
  -- current: the client of the operator reads it from a cache.
  pub record IsCluster : Type 0 where
    pub creates : (j : Job) (s : State) → Creates j (jobs s) (create j s).0 (jobs (create j s).1)

  -- The Jobs that a list shows at a moment; none, if it fails.
  abbrev pub listing : String → Map String String → State → List Job
  listing namespace sel s = elim (list_jobs namespace sel s) [ err e ↦ [] | ok js ↦ js ]
