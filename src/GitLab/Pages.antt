-- ===== src/GitLab/Pages.antt =====
-- What a loop over pages gathers: the items of the pages that it reads, in order.
use mathlib.Core.List.{append-nil}
use scm_metrics_exporter.Prelude.{
  ℕ, zero, suc, ◌+◌, length, length-append, arith, String, ◌≡◌, sym, ap, ◌∙◌, inl, inr, Option,
  Bool, true, false, not, ◌&&◌, ◌||◌, refl, none, some, List, [], ◌++◌, is_empty, if◌then◌else◌,
  ◌==◌, string_eq, Bool-cases, Option-cases,
}
use scm_metrics_exporter.Prelude.Int.{ℤ}
use scm_metrics_exporter.Prelude.Errors.{Error, Result, ok, err, is_some, Result-cases}
use scm_metrics_exporter.GitLab.{RestPage, rest_pages, later_rate}
use scm_metrics_exporter.GitLab.Graphql.{Connection, Envelope, Posted, graphql_pages}

-- A step over the items of a page that does not see where pages end.
abbrev pub IgnoresPages : {A S : Type 0} → (S → List A → S) → Type 0
IgnoresPages {A} {S} step =
    ((s : S) → step s [] ≡ s) × ((s : S) (xs ys : List A) → step (step s xs) ys ≡ step s (xs ++ ys))

abbrev decoded_items : {A : Type 0} → (String → Result (List A)) → Result String → Option (List A)
decoded_items decode (err e) = none
decoded_items decode (ok body) = elim (decode body) [ err e ↦ none | ok items ↦ some items ]

abbrev followed_by : {A : Type 0} → Option (List A) → List A → List A
followed_by none rest = []
followed_by (some items) rest = items ++ rest

-- The items of at most `fuel` pages from `next`, up to the first page that fails.
unfoldable pub rest_items :
    {A : Type 0} → (String → Result (List A)) → (String → RestPage) → ℕ → String → List A
rest_items decode get zero next = []
rest_items decode get (suc fuel) next =
    let rest = rest_items decode get fuel (get next).next in
    if next == "" then [] else followed_by (decoded_items decode (get next).body) rest

abbrev connection_items : {A : Type 0} → Option (Connection A) → (String → List A) → List A
connection_items none rest = []
connection_items (some c) rest = c.nodes ++ (if c.has_next_page then rest c.end_cursor else [])

abbrev envelope_items : {A : Type 0} → Result (Envelope A) → (String → List A) → List A
envelope_items (err e) rest = []
envelope_items (ok a) rest = if is_empty a.errors then connection_items a.connection rest else []

-- The nodes of at most `fuel` pages from a cursor, up to the first page that fails.
unfoldable pub graphql_items :
    {A : Type 0} → (Option String → Posted (Envelope A)) → ℕ → Option String → List A
graphql_items query zero after = []
graphql_items query (suc fuel) after =
    envelope_items (query after).answer (λ cursor. graphql_items query fuel (some cursor))

abbrev page_fails : {A : Type 0} → Option (List A) → Bool → Bool
page_fails none rest = true
page_fails (some items) rest = rest

-- Whether one of at most `fuel` pages from `next` fails, before the last one.
unfoldable pub rest_fails :
    {A : Type 0} → (String → Result (List A)) → (String → RestPage) → ℕ → String → Bool
rest_fails decode get zero next = false
rest_fails decode get (suc fuel) next =
    let rest = rest_fails decode get fuel (get next).next in
    if next == "" then false else page_fails (decoded_items decode (get next).body) rest

abbrev connection_fails : {A : Type 0} → Option (Connection A) → (String → Bool) → Bool
connection_fails none rest = false
connection_fails (some c) rest = c.has_next_page && rest c.end_cursor

abbrev envelope_fails : {A : Type 0} → Result (Envelope A) → (String → Bool) → Bool
envelope_fails (err e) rest = true
envelope_fails (ok a) rest = not (is_empty a.errors) || connection_fails a.connection rest

-- Whether one of at most `fuel` pages from a cursor fails; a connection that is missing is the end.
unfoldable pub graphql_fails :
    {A : Type 0} → (Option String → Posted (Envelope A)) → ℕ → Option String → Bool
graphql_fails query zero after = false
graphql_fails query (suc fuel) after =
    envelope_fails (query after).answer (λ cursor. graphql_fails query fuel (some cursor))

module _ {A S : Type 0} (step : S → List A → S) where
  pub rest_pages-result :
      (decode : String → Result (List A)) (get : String → RestPage) (fuel : ℕ) (next : String)
      (s : S) (rate : Option ℤ)
      → IgnoresPages step
      → (rest_pages decode step get fuel next s rate).result
        ≡ step s (rest_items decode get fuel next)
  unfolding rest_pages rest_items
  rest_pages-result decode get zero next s rate (keeps, _) = sym (keeps s)
  rest_pages-result decode get (suc fuel) next s rate (keeps, joins) =
      elim (Bool-cases (next == "")) [
        | inl e ↦ rw e (sym (keeps s))
        | inr e ↦ rw e (elim (Result-cases (get next).body) [
          | inr (_, failed) ↦ rw failed (sym (keeps s))
          | inl (body, read) ↦
              rw (read, decoded_items)
                (elim (Result-cases (decode body)) [
                  | inr (_, failed) ↦ rw failed (sym (keeps s))
                  | inl (items, parsed) ↦ rw parsed (
                      rest_pages-result decode get fuel (get next).next (step s items)
                        (later_rate rate (get next).rate) (keeps, joins)
                      ∙ joins s items (rest_items decode get fuel (get next).next))
                ])
        ])
      ]

  pub graphql_pages-result :
      (missing : Option Error) (query : Option String → Posted (Envelope A)) (fuel : ℕ)
      (after : Option String) (s : S) (rate : Option ℤ)
      → IgnoresPages step
      → (graphql_pages step missing query fuel after s rate).result
        ≡ step s (graphql_items query fuel after)
  unfolding graphql_pages graphql_items
  graphql_pages-result missing query zero after s rate (keeps, _) = sym (keeps s)
  graphql_pages-result missing query (suc fuel) after s rate (keeps, joins) =
      elim (Result-cases (query after).answer) [
        | inr (_, failed) ↦ rw (failed, graphql_pages) (sym (keeps s))
        | inl (a, read) ↦ (elim (Bool-cases (is_empty a.errors)) [
          | inr e ↦ rw (read, e, graphql_pages) (sym (keeps s))
          | inl e ↦ (elim (Option-cases a.connection) [
            | inl absent ↦ rw (read, e, absent, graphql_pages) (sym (keeps s))
            | inr (c, found) ↦ (elim (Bool-cases c.has_next_page) [
              | inr last ↦
                  rw (read, e, found, last, graphql_pages)
                    (ap (λ xs. step s xs) (sym (append-nil c.nodes)))
              | inl more ↦
                  rw (read, e, found, more, graphql_pages)
                    (graphql_pages-result missing query fuel (some c.end_cursor) (step s c.nodes)
                        (later_rate rate (query after).rate) (keeps, joins)
                      ∙ joins s c.nodes (graphql_items query fuel (some c.end_cursor)))
            ])
          ])
        ])
      ]

module _ {A S : Type 0} (step : S → List A → S) where
  pub rest_pages-error :
      (decode : String → Result (List A)) (get : String → RestPage) (fuel : ℕ) (next : String)
      (s : S) (rate : Option ℤ)
      → is_some (rest_pages decode step get fuel next s rate).error
        ≡ rest_fails decode get fuel next
  unfolding rest_pages rest_fails
  rest_pages-error decode get zero next s rate = refl
  rest_pages-error decode get (suc fuel) next s rate = elim (Bool-cases (next == "")) [
    | inl e ↦ rw e refl
    | inr e ↦ rw e (elim (Result-cases (get next).body) [
      | inr (_, fails) ↦ rw fails refl
      | inl (body, read) ↦
          rw (read, decoded_items)
            (elim (Result-cases (decode body)) [
              | inr (_, fails) ↦ rw fails refl
              | inl (items, parsed) ↦ rw parsed (
                  rest_pages-error decode get fuel (get next).next (step s items)
                    (later_rate rate (get next).rate))
            ])
    ])
  ]

  pub graphql_pages-error :
      (query : Option String → Posted (Envelope A)) (fuel : ℕ) (after : Option String) (s : S)
      (rate : Option ℤ)
      → is_some (graphql_pages step none query fuel after s rate).error
        ≡ graphql_fails query fuel after
  unfolding graphql_pages graphql_fails
  graphql_pages-error query zero after s rate = refl
  graphql_pages-error query (suc fuel) after s rate = elim (Result-cases (query after).answer) [
    | inr (_, fails) ↦ rw (fails, graphql_pages) refl
    | inl (a, read) ↦ (elim (Bool-cases (is_empty a.errors)) [
      | inr e ↦ rw (read, e, graphql_pages) refl
      | inl e ↦ (elim (Option-cases a.connection) [
        | inl absent ↦ rw (read, e, absent, graphql_pages) refl
        | inr (c, found) ↦ (elim (Bool-cases c.has_next_page) [
          | inr last ↦ rw (read, e, found, last, graphql_pages) refl
          | inl more ↦
              rw (read, e, found, more, graphql_pages)
                (graphql_pages-error query fuel (some c.end_cursor) (step s c.nodes)
                  (later_rate rate (query after).rate))
        ])
      ])
    ])
  ]

pub length-IgnoresPages : {A : Type 0} → IgnoresPages {A = A} (λ n xs. n + length xs)
length-IgnoresPages = (λ n. omega arith, λ n xs ys. rw (length-append xs ys) (omega arith))
