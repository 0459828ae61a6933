-- ===== src/GitLab.antt =====
-- internal/provider/gitlab: the pages of the REST API (rest.go) and of the GraphQL API (graphql.go).
-- The transport is net/http: `get` answers for a path and `query` for a cursor. What encoding/json
-- makes of a body is the argument `decode`.
pub mod Rest
pub mod Graphql
pub mod Repo
pub mod Pages
pub mod Collect
pub mod Merge
pub mod Group
pub mod History
pub mod Resolutions
pub mod Whole
use Prim.Native.String
use scm_metrics_exporter.Prelude.{
  ℕ, zero, suc, String, Bool, true, false, Option, none, some, List, [], ◌∷◌, ◌++◌, is_empty,
  if◌then◌else◌, ◌==◌, nat_eq, string_eq,
}
use scm_metrics_exporter.Prelude.Int.{ℤ}
use scm_metrics_exporter.Prelude.Errors.{Error, message, wrap, Result, ok, err}
use scm_metrics_exporter.Prelude.Text.Decimal.{parse_int}

abbrev pub default_max_pages : ℕ
default_max_pages = 100

-- A response with the headers that the program reads; a header that is absent is empty.
pub record HttpResponse : Type 0 where
  pub status : ℕ
  pub rate_limit_remaining : String
  pub retry_after : String
  pub next_page : String
  pub body : Result String

-- A header that is no number gives no reading.
unfoldable pub rate_header : String → Option ℤ
unfolding parse_int
rate_header v = if v == "" then none else parse_int v

-- What getPage returns.
pub record RestPage : Type 0 where
  pub body : Result String
  pub next : String
  pub rate : Option ℤ

abbrev read_body : HttpResponse → RestPage
read_body r = elim r.body [
  | err e ↦ record {
    body = err (wrap "gitlab rest: read response" e);
    next = "";
    rate = rate_header r.rate_limit_remaining;
  }
  | ok b ↦ record { body = ok b; next = r.next_page; rate = rate_header r.rate_limit_remaining }
]

abbrev refused : HttpResponse → String → RestPage
refused r text = record {
  body = err (message text);
  next = "";
  rate = rate_header r.rate_limit_remaining;
}

unfoldable pub get_page : Result HttpResponse → RestPage
unfolding rate_header
get_page (err e) = record { body = err (wrap "gitlab rest: do request" e); next = ""; rate = none }
get_page (ok r) =
    if r.status == 429
    then refused r (String.◌++◌ "gitlab rest: 429 throttled: retry-after=" r.retry_after)
    else if r.status == 200
    then read_body r
    else refused r "gitlab rest: http status"

-- What a loop over pages returns: what it gathered, the latest rate reading, and its error.
pub record Swept (S : Type 0) : Type 0 where
  pub result : S
  pub rate : Option ℤ
  pub error : Option Error

abbrev pub later_rate : Option ℤ → Option ℤ → Option ℤ
later_rate before none = before
later_rate before (some n) = some n

abbrev pub swept : {S : Type 0} → S → Option ℤ → Option Error → Swept S
swept s rate e = record { result = s; rate = rate; error = e }

module _ {A S : Type 0} (decode : String → Result (List A)) (step : S → List A → S) where
  -- `for page, next := 0, "1"; next != "" && page < maxPages; page++`: at most `fuel` pages.
  unfoldable pub rest_pages :
      (get : String → RestPage) → (fuel : ℕ) → (next : String) → S → Option ℤ → Swept S
  rest_pages get zero next s rate = swept s rate none
  rest_pages get (suc fuel) next s rate =
      let page = get next in
      let rate' = later_rate rate page.rate in
      let rest : Swept S = elim page.body [
        | err e ↦ swept s rate' (some e)
        | ok body ↦ (elim (decode body) [
          | err e ↦ swept s rate' (some (wrap "gitlab rest: decode" e))
          | ok items ↦ rest_pages get fuel page.next (step s items) rate'
        ])
      ] in
      if next == "" then swept s rate none else rest
