-- ===== src/GitLab/Rest.antt =====
-- The projects of a group or a user with their open merge requests (rest.go).
use Prim.Native.String
use scm_metrics_exporter.Prelude.{
  ℕ, ◌+◌, String, Bool, true, false, Option, none, some, List, [], ◌∷◌, ◌++◌, map, length,
  if◌then◌else◌, ◌==◌, nat_eq, string_eq,
}
use scm_metrics_exporter.Prelude.Int.{ℤ, int_eq}
use scm_metrics_exporter.Prelude.Assoc.{Map, get, adjust}
use scm_metrics_exporter.Prelude.Errors.{Error, Result}
use scm_metrics_exporter.Prelude.Text.Url.{path_escape}
use scm_metrics_exporter.Prelude.Text.Decimal.{format_int}
use scm_metrics_exporter.GitLab.{
  HttpResponse, RestPage, get_page, Swept, swept, rest_pages, later_rate, default_max_pages,
}

pub record Project : Type 0 where
  pub id : ℤ
  pub path_with_namespace : String

pub record RestProject : Type 0 where
  pub id : ℤ
  pub path_with_namespace : String
  pub open_mrs : ℕ

-- What encoding/json makes of the bodies. A merge request is the identifier of its project.
pub record Json : Type 0 where
  pub projects : String → Result (List Project)
  pub merge_requests : String → Result (List ℤ)

abbrev pub listed : Project → RestProject
listed p = record { id = p.id; path_with_namespace = p.path_with_namespace; open_mrs = 0 }

unfoldable pub add_projects : List RestProject → List Project → List RestProject
add_projects old new = old ++ map listed new

-- `counts[mr.ProjectID]++` for each merge request of a page
unfoldable pub count_mrs : Map ℤ ℕ → List ℤ → Map ℤ ℕ
count_mrs m [] = m
count_mrs m (id ∷ ids) = count_mrs (adjust 0 (λ n. n + 1) id m) ids

abbrev pub with_count : Map ℤ ℕ → RestProject → RestProject
with_count counts p = record p { open_mrs = get 0 p.id counts }

unfoldable pub with_counts : Map ℤ ℕ → List RestProject → List RestProject
with_counts counts projects = map (with_count counts) projects

-- The projects of a group, once its merge requests are swept: as they were listed if the listing or
-- the sweep failed.
abbrev pub counted_projects :
    Swept (List RestProject)
    → Swept (Map ℤ ℕ)
    → (listing sweep : Option Error) → Swept (List RestProject)
counted_projects projects counts (some e) sweep = swept projects.result projects.rate (some e)
counted_projects projects counts none (some e) = swept projects.result counts.rate (some e)
counted_projects projects counts none none =
    swept (with_counts counts.result projects.result) counts.rate none

-- The projects of a user: as they were listed if the listing failed.
abbrev pub user_projects :
    (projects counted : Swept (List RestProject)) → Option Error → Swept (List RestProject)
user_projects projects counted (some e) = swept projects.result projects.rate (some e)
user_projects projects counted none = counted

-- Adds the parts of a text in order.
abbrev pub joined : List String → String
joined [] = ""
joined (s ∷ ss) = String.◌++◌ s (joined ss)

abbrev archived_filter : Bool → String
archived_filter true = ""
archived_filter false = "&archived=false"

unfoldable pub group_projects_path : Bool → String → String
group_projects_path include_archived group = joined (
    "/groups/"
    ∷ path_escape group
    ∷ "/projects?include_subgroups=true&simple=true&per_page=100"
    ∷ archived_filter include_archived
    ∷ [])

unfoldable pub group_mrs_path : String → String
group_mrs_path group =
    joined
      ("/groups/" ∷ path_escape group ∷ "/merge_requests?state=opened&scope=all&per_page=100" ∷ [])

unfoldable pub user_projects_path : Bool → String → String
user_projects_path include_archived user = joined (
    "/users/"
    ∷ path_escape user
    ∷ "/projects?simple=true&per_page=100"
    ∷ archived_filter include_archived
    ∷ [])

-- One page of a listing, by its number; `http` answers for the path of a request.
abbrev pub page_at : (String → Result HttpResponse) → String → String → RestPage
page_at http path next = get_page (http (joined (path ∷ "&page=" ∷ next ∷ [])))

-- The loop over a user's projects, those before `todo` with their counts. `count` pages through the
-- open merge requests of one project.
unfoldable pub count_projects :
    (count : ℤ → Swept ℕ) → (counted todo : List RestProject) → Option ℤ → Swept (List RestProject)
count_projects count counted [] rate = swept counted rate none
count_projects count counted (p ∷ todo) rate =
    let c = count p.id in
    elim c.error [
      | some e ↦ swept (counted ++ p ∷ todo) (later_rate rate c.rate) (some e)
      | none ↦
          count_projects count (counted ++ record p { open_mrs = c.result } ∷ []) todo
            (later_rate rate c.rate)
    ]

module _ (http : String → Result HttpResponse) (json : Json) where
  unfoldable pub list_projects : String → Swept (List RestProject)
  unfolding rest_pages
  list_projects path =
      rest_pages json.projects add_projects (page_at http path) default_max_pages "1" [] none

  unfoldable pub sweep_mrs : String → Option ℤ → Swept (Map ℤ ℕ)
  unfolding rest_pages
  sweep_mrs path rate =
      rest_pages json.merge_requests count_mrs (page_at http path) default_max_pages "1" [] rate

  unfoldable pub collect_rest_for_group : Bool → String → Swept (List RestProject)
  unfolding list_projects sweep_mrs group_projects_path group_mrs_path
  collect_rest_for_group include_archived group =
      let projects = list_projects (group_projects_path include_archived group) in
      let counts = sweep_mrs (group_mrs_path group) projects.rate in
      counted_projects projects counts projects.error counts.error

  -- The pages of one project's open merge requests are counted.
  unfoldable pub count_project_open_mrs : ℤ → Swept ℕ
  unfolding rest_pages
  count_project_open_mrs id =
      let path =
        joined ("/projects/" ∷ format_int id ∷ "/merge_requests?state=opened&per_page=100" ∷ []) in
      rest_pages json.merge_requests (λ n mrs. n + length mrs) (page_at http path) default_max_pages
        "1" 0 none

  unfoldable pub collect_rest_for_user : Bool → String → Swept (List RestProject)
  unfolding list_projects count_projects count_project_open_mrs user_projects_path
  collect_rest_for_user include_archived user =
      let projects = list_projects (user_projects_path include_archived user) in
      let counted = count_projects count_project_open_mrs [] projects.result projects.rate in
      user_projects projects counted projects.error

  unfoldable pub collect_rest : String → Bool → String → Swept (List RestProject)
  unfolding collect_rest_for_group collect_rest_for_user
  collect_rest target_type include_archived target =
      if target_type == "user"
      then collect_rest_for_user include_archived target
      else collect_rest_for_group include_archived target
