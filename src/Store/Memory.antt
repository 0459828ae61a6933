-- ===== src/Store/Memory.antt =====
-- A server in memory that behaves as `IsRedis` says: the assumptions about Valkey can be met.
use scm_metrics_exporter.Prelude.{
  String, ◌≡◌, refl, ap, sym, ap₂, ◌∙◌, Bool, true, false, ◌||◌, ◌&&◌, List, [], ◌∷◌, ◌++◌,
  if◌then◌else◌, ◌==◌, string_eq, contains, contains-append, is_empty, inl, inr, Bool-cases,
  eq_of_beq, arith,
}
use scm_metrics_exporter.Prelude.Int.{ℤ, pos, ◌+ℤ◌}
use scm_metrics_exporter.Prelude.Assoc.{Map, get, adjust, get-adjust}
use scm_metrics_exporter.Store.Server.{Redis, IsRedis, is_member, not_positive}

pub record Tables : Type 0 where
  pub sets : Map String (List String)
  pub hashes : Map String (Map String ℤ)

abbrev pub no_tables : Tables
no_tables = record { sets = []; hashes = [] }

abbrev include : String → List String → List String
include x xs = if contains xs x then xs else xs ++ x ∷ []

abbrev clear : String → Tables → Tables
clear k d = record d { sets = adjust [] (λ _. []) k d.sets }

abbrev pub memory : Redis
memory = record {
  Db = Tables;
  sadd = λ k x d. (
    if contains (get [] k d.sets) x then false else true,
    record d { sets = adjust [] (include x) k d.sets },
  );
  expire = λ k t d. if not_positive t then clear k d else d;
  hincrby = λ k f n d. record d { hashes = adjust [] (adjust (pos 0) (λ v. v +ℤ n) f) k d.hashes };
  smembers = λ k d. get [] k d.sets;
  hgetall = λ k d. get [] k d.hashes;
  lapse = clear;
}

contains-include :
    (x y : String) (xs : List String) → contains (include x xs) y ≡ (x == y || contains xs y)
contains-include x y xs = elim (Bool-cases (contains xs x)) [
  | inl h ↦ rw h (elim (Bool-cases (x == y)) [
    | inl e ↦ rw e (ap (contains xs) (sym (eq_of_beq x y e)) ∙ h)
    | inr n ↦ rw n refl
  ])
  | inr h ↦ rw h (contains-append xs (x ∷ []) y ∙ flip (contains xs y) (x == y))
]
  where
    flip : (a b : Bool) → (a || (b || false)) ≡ (b || a)
    flip true true = refl
    flip true false = refl
    flip false true = refl
    flip false false = refl

adjust-is_empty :
    (f : String) (n : ℤ) (m : Map String ℤ) → is_empty (adjust (pos 0) (λ v. v +ℤ n) f m) ≡ false
unfolding adjust
adjust-is_empty f n [] = refl
adjust-is_empty f n ((g, v) ∷ m) = ground arith

member_clear :
    (k j y : String) (d : Tables)
    → is_member memory j y (clear k d) ≡ (if k == j then false else is_member memory j y d)
member_clear k j y d = rw (get-adjust [] (λ _. []) k j d.sets) (split_on (k == j))
  where
    split_on :
        (b : Bool)
        → contains (if b then [] else get [] j d.sets) y
          ≡ (if b then false else contains (get [] j d.sets) y)
    split_on true = refl
    split_on false = refl

clear_if :
    (b c e : Bool) → (if b && c then false else e) ≡ (if c then (if b then false else e) else e)
clear_if true true e = refl
clear_if true false e = refl
clear_if false true e = refl
clear_if false false e = refl

add_if :
    (k j f g : String) (n : ℤ) (m : Map String (Map String ℤ))
    → get (pos 0) g (if k == j then adjust (pos 0) (λ v. v +ℤ n) f (get [] k m) else get [] j m)
      ≡ (if k == j && f == g then get (pos 0) g (get [] j m) +ℤ n else get (pos 0) g (get [] j m))
add_if k j f g n m = elim (Bool-cases (k == j)) [
  | inl e ↦ rw e (
      get-adjust (pos 0) (λ v. v +ℤ n) f g (get [] k m)
      ∙ split_on (get [] k m) (get [] j m) (ap (λ i. get [] i m) (eq_of_beq k j e)))
  | inr e ↦ rw e refl
]
  where
    split_on :
        (a b : Map String ℤ)
        → a ≡ b
        → (if f == g then get (pos 0) f a +ℤ n else get (pos 0) g a)
          ≡ (if f == g then get (pos 0) g b +ℤ n else get (pos 0) g b)
    split_on a b h = elim (Bool-cases (f == g)) [
      | inl e ↦ rw e (ap₂ (λ i c. get (pos 0) i c +ℤ n) (eq_of_beq f g e) h)
      | inr e ↦ rw e (ap (get (pos 0) g) h)
    ]

exists_if :
    (k j f : String) (n : ℤ) (m : Map String (Map String ℤ))
    → (if is_empty (if k == j then adjust (pos 0) (λ v. v +ℤ n) f (get [] k m) else get [] j m)
        then false
        else true)
      ≡ (k == j || (if is_empty (get [] j m) then false else true))
exists_if k j f n m = elim (Bool-cases (k == j)) [
  | inl e ↦ rw e (rw (adjust-is_empty f n (get [] k m)) refl)
  | inr e ↦ rw e refl
]

pub memory-IsRedis : IsRedis memory
memory-IsRedis = record {
  sadd_reply = λ k x d. refl;
  member_sadd = λ k x j y d. rw (get-adjust [] (include x) k j d.sets) (elim (Bool-cases (k == j)) [
    | inl e ↦ rw e (
        contains-include x y (get [] k d.sets)
        ∙ ap (λ i. x == y || contains (get [] i d.sets) y) (eq_of_beq k j e))
    | inr n ↦ rw n refl
  ]);
  hash_sadd = λ k x j d. refl;
  member_expire = λ k t j y d. elim (Bool-cases (not_positive t)) [
    | inl h ↦ rw h (member_clear k j y d ∙ sym (clear_if (k == j) true _))
    | inr h ↦ rw h (sym (clear_if (k == j) false _))
  ];
  hash_expire =
      λ k t j d. elim (Bool-cases (not_positive t)) [ inl h ↦ rw h refl | inr h ↦ rw h refl ];
  member_hincrby = λ k f n j y d. refl;
  hget_hincrby = λ k f n j g d.
      ap (get (pos 0) g) (get-adjust [] (adjust (pos 0) (λ v. v +ℤ n) f) k j d.hashes)
      ∙ add_if k j f g n d.hashes;
  exists_hincrby = λ k f n j d.
      ap (λ m. if is_empty m then false else true)
        (get-adjust [] (adjust (pos 0) (λ v. v +ℤ n) f) k j d.hashes)
      ∙ exists_if k j f n d.hashes;
  member_lapse = member_clear;
  hash_lapse = λ k j d. refl;
}
