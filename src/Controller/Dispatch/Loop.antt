-- ===== src/Controller/Dispatch/Loop.antt =====
-- The loop of `dispatchJobs` in internal/controller/common.go, round by round.
use scm_metrics_exporter.Prelude.{
  ℕ, ◌+◌, ◌≤◌, String, ◌≡◌, refl, sym, ◌∙◌, ◌⊎◌, inl, inr, Bool, true, false, ◌&&◌, ◌||◌, Option,
  List, [], ◌∷◌, ◌++◌, count, count-append, contains, All, string_eq, Bool-cases, Option-cases,
  beq_refl, subst, arith,
}
use scm_metrics_exporter.Prelude.Int.{ℤ, pos, leb_ℤ, ◌≤ℤ◌, ◌+ℤ◌, int_laws}
use scm_metrics_exporter.Prelude.Errors.{Error, Result, ok, err}
use scm_metrics_exporter.Controller.Cluster.{
  Cluster, IsCluster, Created, created, already_exists, create_failed, Creates, is_active, selects,
  exists_key, same_key,
}
use scm_metrics_exporter.Controller.Render.{Job, selector_labels}
use scm_metrics_exporter.Controller.Dispatch.{dispatch_loop}

exists_key-append :
    (j : Job) (xs ys : List Job) → exists_key j (xs ++ ys) ≡ (exists_key j xs || exists_key j ys)
exists_key-append j [] ys = refl
exists_key-append j (x ∷ xs) ys = ground (arith, exists_key-append j xs ys)

-- The active Jobs of a custom resource.
abbrev pub live : (c : Cluster) → (cr_name namespace : String) → c.State → ℕ
live c cr_name namespace s =
    count (λ j. selects namespace (selector_labels cr_name) j && is_active j) (c.jobs s)

module _ (c : Cluster) (l : IsCluster c) (set_owner : Job → Option Error) (job_for : String → Job)
    (parallelism : ℤ) (cr_name namespace : String)
    (ours : (repo : String)
      → (selects namespace (selector_labels cr_name) (job_for repo) && is_active (job_for repo))
        ≡ true) where
  open c use {State, list_jobs, create, jobs}

  abbrev Exists : State → String → Type 0
  Exists s repo = exists_key (job_for repo) (jobs s) ≡ true

  -- A repository whose Job's name is listed, or that has a Job of that name.
  abbrev pub Handled : List String → State → String → Type 0
  Handled existing s repo = (contains existing (job_for repo).name ≡ true) ⊎ Exists s repo

  -- What the loop does when it starts with the names `existing` and the count `active`.
  pub record Dispatched (repos existing : List String) (active : ℕ) (s : State) (res : Result Bool)
      (s' : State) : Type 0 where
    pub capped :
        (live c cr_name namespace s' ≤ live c cr_name namespace s)
        ⊎ (pos (live c cr_name namespace s' + active)
            ≤ℤ parallelism +ℤ pos (live c cr_name namespace s))
    pub kept : (j : Job) → exists_key j (jobs s) ≡ true → exists_key j (jobs s') ≡ true
    pub complete : res ≡ ok false → All (Handled existing s') repos
    pub full :
        res ≡ ok true
        → parallelism +ℤ pos (live c cr_name namespace s)
          ≤ℤ pos (live c cr_name namespace s' + active)

  abbrev Loop : List String → List String → ℕ → State → Result Bool × State → Type 0
  Loop repos existing active s r =
      dispatch_loop c set_owner job_for parallelism repos existing active s ≡ r

  abbrev loop : List String → List String → ℕ → State → Result Bool × State
  loop = dispatch_loop c set_owner job_for parallelism

  -- The branches of a round.
  data Round (repo : String) (existing : List String) (active : ℕ) (s : State)
      : (List String → Result Bool × State) → Type 0 where
    listed :
        contains existing (job_for repo).name ≡ true
        → Round repo existing active s (λ repos. loop repos existing active s)
    at_cap : parallelism ≤ℤ pos active → Round repo existing active s (λ _. (ok true, s))
    unowned : (e : Error) → Round repo existing active s (λ _. (err e, s))
    made :
        ¬ (parallelism ≤ℤ pos active)
        → (create (job_for repo) s).0 ≡ created
        → Round repo existing active s
            (λ repos. loop repos existing (active + 1) (create (job_for repo) s).1)
    there :
        (create (job_for repo) s).0 ≡ already_exists
        → Round repo existing active s
            (λ repos. loop repos existing active (create (job_for repo) s).1)
    failed_create :
        (e : Error)
        → (create (job_for repo) s).0 ≡ create_failed e
        → Round repo existing active s (λ _. (err e, (create (job_for repo) s).1))

  Created-cases :
      (x : Created) → (x ≡ created) ⊎ ((x ≡ already_exists) ⊎ ((e : Error) × (x ≡ create_failed e)))
  Created-cases created = inl refl
  Created-cases already_exists = inr (inl refl)
  Created-cases (create_failed e) = inr (inr (e, refl))

  round :
      (repo : String) (existing : List String) (active : ℕ) (s : State)
      → (next : List String → Result Bool × State) × Round repo existing active s next
        × ((repos : List String) → loop (repo ∷ repos) existing active s ≡ next repos)
  unfolding dispatch_loop
  round repo existing active s = elim (Bool-cases (contains existing (job_for repo).name)) [
    | inl e ↦ (_, listed e, λ repos. rw (e, dispatch_loop) refl)
    | inr n ↦ elim (Bool-cases (leb_ℤ parallelism (pos active))) [
      | inl e ↦ (_, at_cap (ground arith), λ repos. rw (n, dispatch_loop) (rw e refl))
      | inr m ↦ elim (Option-cases (set_owner (job_for repo))) [
        | inr (f, e) ↦ (_, unowned f, λ repos. rw (n, dispatch_loop) (rw m (rw e refl)))
        | inl e ↦ elim (Created-cases (create (job_for repo) s).0) [
          | inl k ↦
              (_, made (ground arith) k, λ repos. rw (n, dispatch_loop) (rw m (rw e (rw k refl))))
          | inr (inl k) ↦ (_, there k, λ repos. rw (n, dispatch_loop) (rw m (rw e (rw k refl))))
          | inr (inr (f, k)) ↦
              (_, failed_create f k, λ repos. rw (n, dispatch_loop) (rw m (rw e (rw k refl))))
        ]
      ]
    ]
  ]

  same_key_refl : (j : Job) → same_key j j ≡ true
  same_key_refl j = rw (beq_refl j.namespace, beq_refl j.name) refl

  -- What a creation that succeeds, or that finds the Job there, does.
  made-facts :
      (repo : String) (s : State)
      → (create (job_for repo) s).0 ≡ created
      → let s' = (create (job_for repo) s).1 in
        (live c cr_name namespace s' ≡ live c cr_name namespace s + 1)
        × ((j : Job) → exists_key j (jobs s) ≡ true → exists_key j (jobs s') ≡ true)
        × Exists s' repo
  made-facts repo s k =
      let e =
        (subst (λ x. Creates c (job_for repo) (jobs s) x (jobs (create (job_for repo) s).1)) k
          (l.creates (job_for repo) s)).1 in
      (
        rw e (count-append _ (jobs s) (job_for repo ∷ []) ∙ rw (ours repo) refl),
        λ j h. rw e (rw (exists_key-append j (jobs s) (job_for repo ∷ [])) (rw h refl)),
        rw e (
            rw (exists_key-append (job_for repo) (jobs s) (job_for repo ∷ []))
              (rw (same_key_refl (job_for repo)) (or_true _))),
      )
    where
      or_true : (b : Bool) → (b || true) ≡ true
      or_true true = refl
      or_true false = refl

  there-facts :
      (repo : String) (s : State)
      → (create (job_for repo) s).0 ≡ already_exists
      → (jobs (create (job_for repo) s).1 ≡ jobs s) × Exists s repo
  there-facts repo s k =
      let e =
        subst (λ x. Creates c (job_for repo) (jobs s) x (jobs (create (job_for repo) s).1)) k
          (l.creates (job_for repo) s) in
      (e.1, e.0)

  failed-facts :
      (repo : String) (s : State) (f : Error)
      → (create (job_for repo) s).0 ≡ create_failed f
      → jobs (create (job_for repo) s).1 ≡ jobs s
  failed-facts repo s f k =
      subst (λ x. Creates c (job_for repo) (jobs s) x (jobs (create (job_for repo) s).1)) k
        (l.creates (job_for repo) s)

  pub stopped :
      (repos existing : List String) (active : ℕ) (s s' : State) (e : Error)
      → jobs s' ≡ jobs s
      → Dispatched repos existing active s (err e) s'
  stopped repos existing active s s' e h = record {
    capped = inl (rw h (omega arith));
    kept = λ j k. rw h k;
    complete = λ k. cc;
    full = λ k. cc;
  }

  abbrev After : List String → List String → ℕ → State → Type 0
  After repos existing active s =
      let (res, s') = loop repos existing active s in Dispatched repos existing active s res s'

  round-Dispatched :
      (repo : String) (repos : List String) (existing : List String) (active : ℕ) (s : State)
      → ((active : ℕ) (s : State) → After repos existing active s)
      → (next : List String → Result Bool × State) → Round repo existing active s next
      → Dispatched (repo ∷ repos) existing active s (next repos).0 (next repos).1
  round-Dispatched repo repos existing active s ih _ (listed h) =
      let d = ih active s in
      record {
        capped = d.capped;
        kept = d.kept;
        complete = λ k. (inl h, d.complete k);
        full = d.full;
      }
  round-Dispatched repo repos existing active s ih _ (at_cap h) = record {
    capped = inl (omega arith);
    kept = λ j k. k;
    complete = λ k. cc;
    full = λ k. omega (int_laws, h);
  }
  round-Dispatched repo repos existing active s ih _ (unowned f) =
      stopped (repo ∷ repos) existing active s s f refl
  round-Dispatched repo repos existing active s ih _ (made h k) =
      let f = made-facts repo s k in
      let d = ih (active + 1) (create (job_for repo) s).1 in
      record {
        capped = elim d.capped [
          | inl p ↦ inr (omega (int_laws, p, f.0, h))
          | inr p ↦ inr (omega (int_laws, p, f.0))
        ];
        kept = λ j p. d.kept j (f.1 j p);
        complete = λ p. (inr (d.kept (job_for repo) f.2), d.complete p);
        full = λ p. let q = d.full p in omega (int_laws, q, f.0);
      }
  round-Dispatched repo repos existing active s ih _ (there k) =
      let f = there-facts repo s k in
      let d = ih active (create (job_for repo) s).1 in
      let same : live c cr_name namespace (create (job_for repo) s).1 ≡ live c cr_name namespace s =
        rw f.0 refl in
      record {
        capped = elim d.capped [
          | inl p ↦ inl (omega (arith, p, same))
          | inr p ↦ inr (omega (int_laws, p, same))
        ];
        kept = λ j p. d.kept j (rw f.0 p);
        complete = λ p. (inr (d.kept (job_for repo) (rw f.0 f.1)), d.complete p);
        full = λ p. let q = d.full p in omega (int_laws, q, same);
      }
  round-Dispatched repo repos existing active s ih _ (failed_create f k) =
      stopped (repo ∷ repos) existing active s _ f (failed-facts repo s f k)

  pub dispatch_loop-Dispatched :
      (repos : List String) (existing : List String) (active : ℕ) (s : State)
      → After repos existing active s
  dispatch_loop-Dispatched [] existing active s =
      unfold dispatch_loop in
      record { capped = inl (omega arith); kept = λ j h. h; complete = λ h. tt; full = λ h. cc }
  dispatch_loop-Dispatched (repo ∷ repos) existing active s =
      let (next, r, e) = round repo existing active s in
      subst (λ p. Dispatched (repo ∷ repos) existing active s p.0 p.1) (sym (e repos))
        (round-Dispatched repo repos existing active s (dispatch_loop-Dispatched repos existing)
          next r)
