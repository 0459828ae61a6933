-- ===== src/Metrics/OpenAge.antt =====
-- The open-age histogram of internal/metrics/metrics.go.
use scm_metrics_exporter.Prelude.{
  ℕ, ◌+◌, ◌≤◌, String, ◌≡◌, refl, ap, ◌∙◌, Bool, true, false, ◌&&◌, not, List, [], ◌∷◌, count,
  count-le-length, length, if◌then◌else◌, ◌==◌, nat_eq, string_eq, inl, inr, Bool-cases, eq_of_beq,
  nat_beq_iff, All-at, arith,
}
use scm_metrics_exporter.Prelude.Int.{ℤ, pos, ◌+ℤ◌, sub_time, is_zero, int_laws, +ℤ_assoc, zero-+ℤ}
use scm_metrics_exporter.Prelude.Assoc.{Map, get, get-adjust, adjust, lookup}
use scm_metrics_exporter.Provider.{Finding, remediation_bucket_bounds}
use scm_metrics_exporter.Store.{within}
use scm_metrics_exporter.Store.Histogram.{IsBound}
use scm_metrics_exporter.Metrics.{OpenAgeAcc, empty_acc, bump_buckets, age_finding, open_ages}

-- The ages of the findings of a category that have a creation time.
abbrev pub ages : ℤ → String → List Finding → List ℤ
ages now c [] = []
ages now c (f ∷ fs) =
    if not (is_zero f.created_at) && f.category == c
    then sub_time now f.created_at ∷ ages now c fs
    else ages now c fs

abbrev pub total_age : List ℤ → ℤ
total_age [] = pos 0
total_age (a ∷ rest) = a +ℤ total_age rest

age_all : List ℤ → OpenAgeAcc → OpenAgeAcc
age_all [] acc = acc
age_all (a ∷ rest) acc = age_all rest (age_finding a acc)

get-open_ages :
    (now : ℤ) (c : String) (fs : List Finding) (m : Map String OpenAgeAcc)
    → get empty_acc c (open_ages now fs m) ≡ age_all (ages now c fs) (get empty_acc c m)
unfolding open_ages age_all
get-open_ages now c [] m = refl
get-open_ages now c (f ∷ fs) m = get-open_ages now c fs _ ∙ step (is_zero f.created_at)
  where
    step :
        (z : Bool)
        → age_all (ages now c fs) (
            get empty_acc c (
              if z
              then m
              else adjust empty_acc (age_finding (sub_time now f.created_at)) f.category m))
          ≡ age_all
              (if not z && f.category == c
                then sub_time now f.created_at ∷ ages now c fs
                else ages now c fs)
              (get empty_acc c m)
    step true = refl
    step false =
        rw (get-adjust empty_acc (age_finding (sub_time now f.created_at)) f.category c m)
          (elim (Bool-cases (f.category == c)) [
            | inl e ↦ rw e (
                ap
                  (λ i.
                    age_all (ages now c fs)
                      (age_finding (sub_time now f.created_at) (get empty_acc i m)))
                  (eq_of_beq f.category c e))
            | inr e ↦ rw e refl
          ])

get-bump_buckets :
    (age : ℤ) (le : ℕ) (les : List ℕ) (m : Map ℕ ℕ)
    → get 0 le (bump_buckets age les m)
      ≡ get 0 le m + (if within age le then count (λ x. x == le) les else 0)
unfolding bump_buckets
get-bump_buckets age le [] m = ground arith
get-bump_buckets age le (x ∷ les) m =
    get-bump_buckets age le les _
    ∙ split_on (within age x) (within age le) (get-adjust 0 (λ n. n + 1) x le m)
        (λ e. ap (within age) e)
  where
    split_on :
        (b c : Bool)
        → get 0 le (adjust 0 (λ n. n + 1) x m) ≡ (if x == le then get 0 x m + 1 else get 0 le m)
        → (x ≡ le → b ≡ c)
        → get 0 le (if b then adjust 0 (λ n. n + 1) x m else m)
            + (if c then count (λ y. y == le) les else 0)
          ≡ get 0 le m + (if c then (if x == le then 1 else 0) + count (λ y. y == le) les else 0)
    split_on b c h k = ground (arith, nat_beq_iff x le, ap (λ i. get 0 i m))

bounds-once : (le : ℕ) → IsBound le → count (λ x. x == le) remediation_bucket_bounds ≡ 1
bounds-once le h =
    All-at (λ b. count (λ x. x == b) remediation_bucket_bounds ≡ 1) le remediation_bucket_bounds h
      (refl, (refl, (refl, (refl, (refl, (refl, (refl, (refl, tt))))))))

buckets-age_all :
    (le : ℕ) (xs : List ℤ) (acc : OpenAgeAcc)
    → IsBound le
    → get 0 le (age_all xs acc).buckets ≡ get 0 le acc.buckets + count (λ a. within a le) xs
unfolding age_all age_finding
buckets-age_all le [] acc h = omega arith
buckets-age_all le (a ∷ rest) acc h =
    buckets-age_all le rest _ h
    ∙ rw (get-bump_buckets a le remediation_bucket_bounds acc.buckets, bounds-once le h)
        (ground arith)

inf-age_all :
    (xs : List ℤ) (acc : OpenAgeAcc) → (age_all xs acc).inf_count ≡ acc.inf_count + length xs
unfolding age_all age_finding
inf-age_all [] acc = omega arith
inf-age_all (a ∷ rest) acc = inf-age_all rest _ ∙ omega arith

count-age_all : (xs : List ℤ) (acc : OpenAgeAcc) → (age_all xs acc).count ≡ acc.count + length xs
unfolding age_all age_finding
count-age_all [] acc = omega arith
count-age_all (a ∷ rest) acc = count-age_all rest _ ∙ omega arith

sum-age_all : (xs : List ℤ) (acc : OpenAgeAcc) → (age_all xs acc).sum ≡ acc.sum +ℤ total_age xs
unfolding age_all age_finding
sum-age_all [] acc = omega int_laws
sum-age_all (a ∷ rest) acc = sum-age_all rest _ ∙ +ℤ_assoc acc.sum a (total_age rest)

count_mono :
    (a b : ℕ) (xs : List ℤ) → a ≤ b → count (λ x. within x a) xs ≤ count (λ x. within x b) xs
count_mono a b [] h = omega arith
count_mono a b (x ∷ xs) h = ground (arith, count_mono a b xs h)

module _ (now : ℤ) (c : String) (fs : List Finding) where
  abbrev acc : OpenAgeAcc
  acc = get empty_acc c (open_ages now fs [])

  abbrev aged : List ℤ
  aged = ages now c fs

  acc-eq : acc ≡ age_all aged empty_acc
  unfolding lookup
  acc-eq = get-open_ages now c fs []

  bucket-eq : (le : ℕ) → IsBound le → get 0 le acc.buckets ≡ count (λ a. within a le) aged
  unfolding lookup
  bucket-eq le h =
      ap (λ (x : OpenAgeAcc). get 0 le x.buckets) acc-eq
      ∙ buckets-age_all le aged empty_acc h
      ∙ omega arith

  inf-eq : acc.inf_count ≡ length aged
  inf-eq = ap (λ (x : OpenAgeAcc). x.inf_count) acc-eq ∙ inf-age_all aged empty_acc ∙ omega arith

  count-eq : acc.count ≡ length aged
  count-eq = ap (λ (x : OpenAgeAcc). x.count) acc-eq ∙ count-age_all aged empty_acc ∙ omega arith

  sum-eq : acc.sum ≡ total_age aged
  sum-eq =
      ap (λ (x : OpenAgeAcc). x.sum) acc-eq ∙ sum-age_all aged empty_acc ∙ zero-+ℤ (total_age aged)

-- A category's histogram counts its findings that have a creation time: a bucket those whose age is
-- within its bound, the overflow bucket and the count all of them; the sum adds up their ages.
pub open_ages_lem :
    (now : ℤ) (c : String) (fs : List Finding) (le : ℕ)
    → IsBound le
    → let acc = get empty_acc c (open_ages now fs []) in
      let aged = ages now c fs in
      (get 0 le acc.buckets ≡ count (λ a. within a le) aged)
      × (acc.inf_count ≡ length aged)
      × (acc.count ≡ length aged)
      × (acc.sum ≡ total_age aged)
open_ages_lem now c fs le h =
    (bucket-eq now c fs le h, inf-eq now c fs, count-eq now c fs, sum-eq now c fs)

-- A category's histogram is cumulative: a bucket holds what every smaller one holds, and the overflow
-- bucket what any bucket holds.
pub open_ages_cumulative :
    (now : ℤ) (c : String) (fs : List Finding) (a b : ℕ)
    → IsBound a
    → IsBound b
    → a ≤ b
    → let acc = get empty_acc c (open_ages now fs []) in
      (get 0 a acc.buckets ≤ get 0 b acc.buckets) × (get 0 b acc.buckets ≤ acc.inf_count)
open_ages_cumulative now c fs a b h k l = (
  rw (bucket-eq now c fs a h, bucket-eq now c fs b k) (count_mono a b (aged now c fs) l),
  rw (bucket-eq now c fs b k, inf-eq now c fs) (count-le-length (λ x. within x b) (aged now c fs)),
)
