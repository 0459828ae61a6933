-- ===== src/Discovery.antt =====
-- internal/discovery: which repositories a selector takes, the paged listings of both providers, and
-- the API budget. The HTTP and go-github calls are arguments: a page in, its answer out.
pub mod Selection
pub mod Paging
pub mod Budgets
use Prim.Native.String
use scm_metrics_exporter.Prelude.{
  ℕ, zero, suc, ◌+◌, ◌*◌, String, Bool, true, false, not, ◌&&◌, ◌||◌, Option, none, some, List, [],
  ◌∷◌, ◌++◌, any, is_empty, if◌then◌else◌, ◌==◌, string_eq, nat_eq,
}
use scm_metrics_exporter.Prelude.Int.{ℤ, pos, ltb_ℤ, ◌+ℤ◌, ◌*ℤ◌}
use scm_metrics_exporter.Prelude.Errors.{Error, message, wrap, Result, ok, err}
use scm_metrics_exporter.Prelude.Text.{Unicode, equal_fold}
use scm_metrics_exporter.Prelude.Text.Decimal.{parse_int}
use scm_metrics_exporter.Prelude.Glob.{path_match}

abbrev pub max_pages : ℕ
max_pages = 100

pub record Filter : Type 0 where
  pub topics : List String
  pub visibility : List String
  pub name_patterns : List String
  pub archived : Option Bool

abbrev is_none : Option Bool → Bool
is_none none = true
is_none (some _) = false

unfoldable pub filter_is_empty : Filter → Bool
filter_is_empty f =
    ((is_empty f.topics && is_empty f.visibility) && is_empty f.name_patterns) && is_none f.archived

pub record Selector : Type 0 where
  pub include : Filter
  pub exclude : Filter

unfoldable pub selects : Selector → (Filter → Bool) → Bool
selects s matched =
    if not (matched s.include)
    then false
    else if not (filter_is_empty s.exclude) && matched s.exclude
    then false
    else true

-- A repository of go-github, or a project of GitLab with its full path as its name.
pub record Repository : Type 0 where
  pub name : String
  pub archived : Bool
  pub visibility : String
  pub topics : List String

abbrev pub same_bool : Bool → Bool → Bool
same_bool true b = b
same_bool false b = not b

abbrev pub archived_differs : Option Bool → Bool → Bool
archived_differs none b = false
archived_differs (some a) b = not (same_bool b a)

abbrev globs : Option Bool → Bool
globs none = false
globs (some b) = b

unfoldable pub any_glob : List String → String → Bool
any_glob [] name = false
any_glob (p ∷ patterns) name =
    let rest = any_glob patterns name in if globs (path_match p name) then true else rest

module _ ⦃u : Unicode⦄ where
  unfoldable pub contains_fold : List String → String → Bool
  contains_fold [] v = false
  contains_fold (s ∷ set) v =
      let rest = contains_fold set v in if equal_fold s v then true else rest

  unfoldable pub any_shared : List String → List String → Bool
  any_shared have [] = false
  any_shared have (w ∷ want) =
      let rest = any_shared have want in if contains_fold have w then true else rest

  -- `matches` and `matchesGitLab`, at the provider's name of the repository.
  unfoldable pub matches : Repository → Filter → Bool
  matches r f =
      if archived_differs f.archived r.archived
      then false
      else if not (is_empty f.visibility) && not (contains_fold f.visibility r.visibility)
      then false
      else if not (is_empty f.topics) && not (any_shared r.topics f.topics)
      then false
      else if not (is_empty f.name_patterns) && not (any_glob f.name_patterns r.name)
      then false
      else true

  unfoldable pub append_matching : List String → List Repository → Selector → List String
  append_matching out [] sel = out
  append_matching out (r ∷ rs) sel =
      append_matching
        (if not (r.name == "") && selects sel (matches r) then out ++ r.name ∷ [] else out) rs sel

-- A page of repositories and the number of the next page: none for a missing response.
abbrev pub Page : Type 0
Page = List Repository × Option ℕ

abbrev pub last_page : Option ℕ → Bool
last_page none = true
last_page (some n) = n == 0

abbrev pub next_page : Option ℕ → ℕ
next_page none = 0
next_page (some n) = n

module _ ⦃u : Unicode⦄ where
  -- Both loops of `ListRepos`: `fetch` is the listing of an organization or of a user at a page.
  unfoldable pub list_pages :
      (ℕ → Result Page) → String → Selector → ℕ → ℕ → List String → Result (List String)
  list_pages fetch context sel zero page out = ok out
  list_pages fetch context sel (suc fuel) page out = elim (fetch page) [
    | err e ↦ err (wrap context e)
    | ok p ↦ elim (last_page p.1) [
      | true ↦ ok (append_matching out p.0 sel)
      | false ↦ list_pages fetch context sel fuel (next_page p.1) (append_matching out p.0 sel)
    ]
  ]

  unfoldable pub list_repos :
      (by_user by_org : String → ℕ → Result Page)
      → String
      → String
      → Selector
      → Result (List String)
  list_repos by_user by_org owner target_type sel =
      if target_type == "user"
      then list_pages (by_user owner) (String.◌++◌ "discovery: list user repos " owner) sel
          max_pages 0 []
      else list_pages (by_org owner) (String.◌++◌ "discovery: list org repos " owner) sel max_pages
          0 []

-- The answer to a projects request: its status, its decoded body, and its X-Next-Page header.
pub record Response : Type 0 where
  pub status : ℕ
  pub projects : Result (List Repository)
  pub next_page_header : String

unfoldable pub decode_projects : Response → Result (List Repository × String)
decode_projects r =
    if not (r.status == 200)
    then err (message "discovery: gitlab list projects: http status")
    else elim r.projects [
      | err e ↦ err (wrap "discovery: gitlab decode projects" e)
      | ok projects ↦ ok (projects, r.next_page_header)
    ]

module _ ⦃u : Unicode⦄ where
  unfoldable pub project_pages :
      (String → Result Response) → Selector → ℕ → String → List String → Result (List String)
  project_pages get sel zero next out = ok out
  project_pages get sel (suc fuel) next out = elim (next == "") [
    | true ↦ ok out
    | false ↦ elim (get next) [
      | err e ↦ err (wrap "discovery: gitlab list projects" e)
      | ok r ↦ elim (decode_projects r) [
        | err e ↦ err e
        | ok p ↦ project_pages get sel fuel p.1 (append_matching out p.0 sel)
      ]
    ]
  ]

  -- `get` sends a request for a path and a page; a missing token is an error before any request.
  unfoldable pub list_gitlab_projects :
      (token : String)
      → (by_user by_group : String → String → Result Response) → String
      → String
      → Selector
      → Result (List String)
  list_gitlab_projects token by_user by_group target target_type sel =
      if token == ""
      then err (message "discovery: no gitlab credentials")
      else project_pages (if target_type == "user" then by_user target else by_group target) sel
          max_pages "1" []

-- The zero time is `pos 0`.
pub record Budget : Type 0 where
  pub remaining : ℤ
  pub reset : ℤ
  pub known : Bool

-- `time.Unix(sec, 0)`, in nanoseconds since the zero time.
abbrev unix : ℤ → ℤ
unix sec = (sec +ℤ pos 62_135_596_800) *ℤ 1_000_000_000

abbrev pub no_budget : Budget
no_budget = record { remaining = pos 0; reset = pos 0; known = false }

pub record Rate : Type 0 where
  pub remaining : ℤ
  pub reset : ℤ

unfoldable pub tighter : Option Rate → Budget → Budget
tighter none b = b
tighter (some r) b =
    if not b.known || ltb_ℤ r.remaining b.remaining
    then record { remaining = r.remaining; reset = r.reset; known = true }
    else b

unfoldable pub github_rate_budget : Result (Option Rate × Option Rate) → Result Budget
github_rate_budget (err e) = err (wrap "discovery: github rate limit" e)
github_rate_budget (ok (core, graphql)) = ok (tighter graphql (tighter core no_budget))

abbrev with_reset : ℤ → Option ℤ → Budget
with_reset n none = record { remaining = n; reset = pos 0; known = true }
with_reset n (some sec) = record {
  remaining = n;
  reset = if ltb_ℤ (pos 0) sec then unix sec else pos 0;
  known = true;
}

abbrev budget_of : Option ℤ → Option ℤ → Budget
budget_of none reset = no_budget
budget_of (some n) reset = with_reset n reset

-- The values of the headers RateLimit-Remaining and RateLimit-Reset, empty where they are missing.
unfoldable pub gitlab_budget_from_headers : String → String → Budget
gitlab_budget_from_headers rem reset =
    if rem == "" then no_budget else budget_of (parse_int rem) (parse_int reset)

unfoldable pub gitlab_rate_budget : (token : String) → Result (String × String) → Result Budget
gitlab_rate_budget token (err e) =
    if token == ""
    then err (message "discovery: no gitlab credentials")
    else err (wrap "discovery: gitlab rate limit" e)
gitlab_rate_budget token (ok (rem, reset)) =
    if token == ""
    then err (message "discovery: no gitlab credentials")
    else ok (gitlab_budget_from_headers rem reset)

abbrev gitlab_default_base_url : String
gitlab_default_base_url = "https://gitlab.com"

abbrev gitlab_api_v4 : String
gitlab_api_v4 = "/api/v4"

-- `strings.HasSuffix`
abbrev has_suffix : String → String → Bool
has_suffix suffix String.[] = suffix == ""
has_suffix suffix (String.◌∷◌ c s) = suffix == String.◌∷◌ c s || has_suffix suffix s

-- `strings.TrimSuffix(s, "/")`
abbrev trim_slash : String → String
trim_slash String.[] = ""
trim_slash (String.◌∷◌ c s) =
    let rest = String.◌∷◌ c (trim_slash s) in if String.◌∷◌ c s == "/" then "" else rest

unfoldable pub gitlab_ensure_api_base : String → String
gitlab_ensure_api_base root =
    let root = trim_slash (if root == "" then gitlab_default_base_url else root) in
    if has_suffix gitlab_api_v4 root then root else String.◌++◌ root gitlab_api_v4
