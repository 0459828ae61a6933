-- ===== src/Store/Fields.antt =====
-- The keys and the hash fields of internal/store are all different.
use Prim.Native.String
use text.Mathlib.TextLemmas.{append_cancel_left}
use mathlib.Core.Bool.{false≢true}
use text.Mathlib.TextEquality.{eq_iff}
use scm_metrics_exporter.Prelude.{
  ℕ, String, ◌≡◌, refl, sym, ap, subst, ◌∙◌, Bool, true, false, ◌||◌, List, [], ◌∷◌, map, filter,
  count, count-append, contains, IsDistinct, All, if◌then◌else◌, ◌==◌, nat_eq, string_eq, arith,
  inl, inr, Bool-cases, eq_of_beq, beq_refl, beq_false, All-at,
}
use scm_metrics_exporter.Prelude.Int.{ℤ}
use scm_metrics_exporter.Prelude.Text.Decimal.{format_nat}
use scm_metrics_exporter.Provider.{Bound, finite, inf, remediation_bucket_bounds}
use scm_metrics_exporter.Store.{counted_key, hist_key, bucket_field, within, selected_fields}

-- The keys of different scopes are different.
pub hist_key-beq : (a b : String) → (hist_key a == hist_key b) ≡ (a == b)
unfolding hist_key
hist_key-beq a b = ground (
  arith,
  eq_iff (String.◌++◌ "hist:" a) (String.◌++◌ "hist:" b),
  eq_iff a b,
  append_cancel_left "hist:" a b,
  (λ (e : a ≡ b). ap (String.◌++◌ "hist:") e),
)

pub counted_key-beq : (a b : String) → (counted_key a == counted_key b) ≡ (a == b)
unfolding counted_key
counted_key-beq a b = ground (
  arith,
  eq_iff (String.◌++◌ "counted:" a) (String.◌++◌ "counted:" b),
  eq_iff a b,
  append_cancel_left "counted:" a b,
  (λ (e : a ≡ b). ap (String.◌++◌ "counted:") e),
)

module _ (f : ℕ → String) (t : ℕ → Bool) where
  or-true : (b : Bool) → (b || true) ≡ true
  or-true true = refl
  or-true false = refl

  count-absent :
      (b : ℕ) (bs : List ℕ)
      → contains (map f bs) (f b) ≡ false
      → count (λ x. x == f b) (map f (filter t bs)) ≡ 0
  count-absent b [] h = refl
  count-absent b (c ∷ cs) h = ground (arith, count-absent b cs)

  count-here :
      (c : ℕ) (cs : List ℕ)
      → contains (map f cs) (f c) ≡ false
      → count (λ x. x == f c) (map f (filter t (c ∷ cs))) ≡ (if t c then 1 else 0)
  count-here c cs n = ground (arith, count-absent c cs n, beq_refl (f c))

  contains-map : (b : ℕ) (bs : List ℕ) → contains bs b ≡ true → contains (map f bs) (f b) ≡ true
  contains-map b [] h = cc
  contains-map b (c ∷ cs) h = elim (Bool-cases (c == b)) [
    | inl e ↦ rw (eq_of_beq c b e) (rw (beq_refl (f b)))
    | inr n ↦ rw (contains-map b cs (ground arith)) (or-true (f c == f b))
  ]

  -- A number among distinct names is selected once, if it passes the test.
  count-selected :
      (b : ℕ) (bs : List ℕ)
      → IsDistinct (map f bs)
      → contains bs b ≡ true
      → count (λ x. x == f b) (map f (filter t bs)) ≡ (if t b then 1 else 0)
  count-selected b [] d h = cc
  count-selected b (c ∷ cs) (n, d) h = elim (Bool-cases (c == b)) [
    | inl e ↦
        subst (λ x. count (λ y. y == f x) (map f (filter t (c ∷ cs))) ≡ (if t x then 1 else 0))
          (eq_of_beq c b e) (count-here c cs n)
    | inr m ↦
        let later : contains cs b ≡ true = ground arith in
        ground (
          arith,
          count-selected b cs d later,
          eq_iff (f c) (f b),
          contains-map b cs later,
          (λ (p : f c ≡ f b). ap (λ x. contains (map f cs) x) p),
        )
  ]

  count-none :
      (name : String) (bs : List ℕ)
      → All (λ b. (f b == name) ≡ false) bs
      → count (λ x. x == name) (map f (filter t bs)) ≡ 0
  count-none name [] h = refl
  count-none name (c ∷ cs) (p, h) = ground (arith, count-none name cs h)

-- A statistic of a histogram: a bucket, the sum, or the count.
pub data Stat : Type 0 where
  bucket : Bound → Stat
  sum total : Stat

abbrev pub field : Stat → String
field (bucket b) = bucket_field b
field sum = "sum"
field total = "count"

-- The buckets are those of the source's bounds, and the overflow bucket.
abbrev pub IsStat : Stat → Type 0
IsStat (bucket (finite le)) = contains remediation_bucket_bounds le ≡ true
IsStat _ = Unit

-- How often a finding that took a duration is counted in a statistic's field.
abbrev pub hits : ℤ → Stat → ℕ
hits duration (bucket (finite le)) = if within duration le then 1 else 0
hits duration (bucket inf) = 1
hits duration _ = 0

abbrev finite_field : ℕ → String
finite_field le = bucket_field (finite le)

fields-IsDistinct : IsDistinct (map finite_field remediation_bucket_bounds)
unfolding bucket_field format_nat
fields-IsDistinct = (refl, (refl, (refl, (refl, (refl, (refl, (refl, (refl, tt))))))))

abbrev Differs : String → Type 0
Differs name = All (λ le. (finite_field le == name) ≡ false) remediation_bucket_bounds

inf-Differs : Differs (bucket_field inf)
unfolding bucket_field format_nat
inf-Differs = (refl, (refl, (refl, (refl, (refl, (refl, (refl, (refl, tt))))))))

sum-Differs : Differs "sum"
unfolding bucket_field format_nat
sum-Differs = (refl, (refl, (refl, (refl, (refl, (refl, (refl, (refl, tt))))))))

total-Differs : Differs "count"
unfolding bucket_field format_nat
total-Differs = (refl, (refl, (refl, (refl, (refl, (refl, (refl, (refl, tt))))))))

name-ne-finite :
    (name : String) (le : ℕ)
    → Differs name
    → IsStat (bucket (finite le))
    → (name == finite_field le) ≡ false
name-ne-finite name le d h = beq_false name (finite_field le) λ e. false≢true (
    sym (All-at (λ x. (finite_field x == name) ≡ false) le remediation_bucket_bounds h d)
    ∙ rw e (beq_refl (finite_field le)))

-- The fields that a duration selects hold each bucket once if the duration is within its bound, and
-- neither the sum nor the count.
pub count-selected_fields :
    (duration : ℤ) (s : Stat)
    → IsStat s
    → count (λ x. x == field s) (selected_fields duration) ≡ hits duration s
unfolding selected_fields
count-selected_fields duration (bucket (finite le)) h =
    count-append (λ x. x == finite_field le) (map finite_field _) (bucket_field inf ∷ [])
    ∙ rw
        (
          count-selected finite_field (within duration) le remediation_bucket_bounds
              fields-IsDistinct h,
          name-ne-finite (bucket_field inf) le inf-Differs h,
        )
        (omega arith)
count-selected_fields duration (bucket inf) h =
    count-append (λ x. x == bucket_field inf) (map finite_field _) (bucket_field inf ∷ [])
    ∙ rw
        (
          count-none finite_field (within duration) (bucket_field inf) remediation_bucket_bounds
              inf-Differs,
          beq_refl (bucket_field inf),
        )
        refl
count-selected_fields duration sum h =
    count-append (λ x. x == "sum") (map finite_field _) (bucket_field inf ∷ [])
    ∙ rw (count-none finite_field (within duration) "sum" remediation_bucket_bounds sum-Differs)
        (unfold bucket_field in refl)
count-selected_fields duration total h =
    count-append (λ x. x == "count") (map finite_field _) (bucket_field inf ∷ [])
    ∙ rw (count-none finite_field (within duration) "count" remediation_bucket_bounds total-Differs)
        (unfold bucket_field in refl)

abbrev pub is_sum : Stat → Bool
is_sum sum = true
is_sum _ = false

abbrev pub is_total : Stat → Bool
is_total total = true
is_total _ = false

pub sum-beq : (s : Stat) → IsStat s → ("sum" == field s) ≡ is_sum s
sum-beq (bucket (finite le)) h = name-ne-finite "sum" le sum-Differs h
sum-beq (bucket inf) h = unfold bucket_field in refl
sum-beq sum h = refl
sum-beq total h = refl

pub total-beq : (s : Stat) → IsStat s → ("count" == field s) ≡ is_total s
total-beq (bucket (finite le)) h = name-ne-finite "count" le total-Differs h
total-beq (bucket inf) h = unfold bucket_field in refl
total-beq sum h = refl
total-beq total h = refl
