-- ===== src/Controller/Names/Valid.antt =====
-- The names that internal/controller/render.go gives to collection Jobs.
use Prim.Native.Char.{Char, code, nul}
use Prim.Native.String
use Prim.Native.String.{String, [], ◌∷◌}
use text.Mathlib.TextLemmas.{nil-append, cons-append}
use scm_metrics_exporter.Prelude.{
  ℕ, zero, suc, ◌+◌, ◌%◌, ◌/◌, ◌≤◌, ◌≡◌, refl, true, false, ◌||◌, nat_eq, inl, inr, Bool-cases,
  arith,
}
use scm_metrics_exporter.Prelude.Lists.{all_below, all_below_sound}
use scm_metrics_exporter.Prelude.Text.{Unicode, to_lower, nth}
use scm_metrics_exporter.Controller.Names.{
  is_alnum, is_dash, dash, replace, trim_start, trim_end, keep_end, or_repo, sanitize_name,
  max_base, prefix, hex, sum32a, job_name,
}

abbrev pub text_length : String → ℕ
text_length [] = 0
text_length (c ∷ s) = suc (text_length s)

abbrev pub IsAllowed : Char → Type 0
IsAllowed c = (is_alnum (code c) || is_dash c) ≡ true

-- Lower-case letters, digits and dashes.
abbrev pub Allowed : String → Type 0
Allowed [] = Unit
Allowed (c ∷ s) = IsAllowed c × Allowed s

-- The first rune is a letter or a digit.
abbrev pub Begins : String → Type 0
Begins [] = ⊥
Begins (c ∷ s) = is_alnum (code c) ≡ true

abbrev pub last : Char → String → Char
last c [] = c
last c (d ∷ s) = last d s

-- The last rune is a letter or a digit.
abbrev pub Ends : String → Type 0
Ends [] = ⊥
Ends (c ∷ s) = is_alnum (code (last c s)) ≡ true

replace-Allowed : (s : String) → Allowed (replace s)
unfolding replace
replace-Allowed [] = tt
replace-Allowed (c ∷ s) = elim (Bool-cases (is_alnum (code c) || is_dash c)) [
  | inl e ↦ (rw e e, replace-Allowed s)
  | inr e ↦ (rw e refl, replace-Allowed s)
]

-- The head of a text is no dash.
abbrev Undashed : String → Type 0
Undashed [] = Unit
Undashed (c ∷ s) = is_dash c ≡ false

trim_start-Allowed : (s : String) → Allowed s → Allowed (trim_start s) × Undashed (trim_start s)
unfolding trim_start
trim_start-Allowed [] h = (tt, tt)
trim_start-Allowed (c ∷ s) (a, h) = elim (Bool-cases (is_dash c)) [
  | inl e ↦ rw e (trim_start-Allowed s h)
  | inr e ↦ rw e ((a, h), e)
]

keep_end-Allowed : (c : Char) (r : String) → IsAllowed c → Allowed r → Allowed (keep_end c r)
keep_end-Allowed c [] a h = elim (Bool-cases (is_dash c)) [ inl e ↦ rw e tt | inr e ↦ rw e (a, tt) ]
keep_end-Allowed c (d ∷ r) a h = (a, h)

trim_end-Allowed : (s : String) → Allowed s → Allowed (trim_end s)
unfolding trim_end
trim_end-Allowed [] h = tt
trim_end-Allowed (c ∷ s) (a, h) = keep_end-Allowed c (trim_end s) a (trim_end-Allowed s h)

keep_end-Undashed : (c : Char) (r : String) → is_dash c ≡ false → Undashed (keep_end c r)
keep_end-Undashed c [] e = rw e e
keep_end-Undashed c (d ∷ r) e = e

trim_end-Undashed : (s : String) → Undashed s → Undashed (trim_end s)
unfolding trim_end
trim_end-Undashed [] h = tt
trim_end-Undashed (c ∷ s) h = keep_end-Undashed c (trim_end s) h

or_repo-Begins : (s : String) → Allowed s → Undashed s → Allowed (or_repo s) × Begins (or_repo s)
or_repo-Begins [] a h = ((refl, (refl, (refl, (refl, tt)))), refl)
or_repo-Begins (c ∷ s) (a, k) h = ((a, k), ground arith)

prefix-Begins :
    (n : ℕ) (s : String)
    → Allowed s
    → Begins s
    → Allowed (prefix (suc n) s) × Begins (prefix (suc n) s)
unfolding prefix
prefix-Begins n [] a h = absurd h
prefix-Begins n (c ∷ s) (a, k) h = ((a, prefix-Allowed n s k), h)
  where
    prefix-Allowed : (n : ℕ) (s : String) → Allowed s → Allowed (prefix n s)
    prefix-Allowed zero s h = tt
    prefix-Allowed (suc n) [] h = tt
    prefix-Allowed (suc n) (c ∷ s) (a, h) = (a, prefix-Allowed n s h)

length-prefix : (n : ℕ) (s : String) → text_length (prefix n s) ≤ n
unfolding prefix
length-prefix zero s = omega arith
length-prefix (suc n) [] = omega arith
length-prefix (suc n) (c ∷ s) = omega (arith, length-prefix n s)

abbrev digit : ℕ → Char
digit n = nth "0123456789abcdef" n nul

digits-alnum : all_below 16 (λ i. is_alnum (code (digit i))) ≡ true
unfolding all_below
digits-alnum = refl

digit-alnum : (n : ℕ) → is_alnum (code (digit (n % 16))) ≡ true
digit-alnum n =
    all_below_sound 16 (λ i. is_alnum (code (digit i))) (n % 16) digits-alnum (omega arith)

hex-Allowed : (k n : ℕ) (rest : String) → Allowed rest → Allowed (hex k n rest)
unfolding hex
hex-Allowed zero n rest h = h
hex-Allowed (suc k) n rest h = hex-Allowed k (n / 16) _ (rw (digit-alnum n) refl, h)

length-hex : (k n : ℕ) (rest : String) → text_length (hex k n rest) ≡ k + text_length rest
unfolding hex
length-hex zero n rest = omega arith
length-hex (suc k) n rest = omega (arith, length-hex k (n / 16) (digit (n % 16) ∷ rest))

last-hex :
    (c : Char) (k n : ℕ) (d : Char) (rest : String) → last c (hex k n (d ∷ rest)) ≡ last d rest
unfolding hex
last-hex c zero n d rest = refl
last-hex c (suc k) n d rest = last-hex c k (n / 16) (digit (n % 16)) (d ∷ rest)

-- A text in front of another one.
append-Allowed : (p s : String) → Allowed p → Allowed s → Allowed (String.◌++◌ p s)
append-Allowed [] s h k = rw nil-append k
append-Allowed (c ∷ p) s (a, h) k = rw cons-append (a, append-Allowed p s h k)

append-Begins : (p s : String) → Begins p → Begins (String.◌++◌ p s)
append-Begins [] s h = absurd h
append-Begins (c ∷ p) s h = rw cons-append h

length-text_append : (p s : String) → text_length (String.◌++◌ p s) ≡ text_length p + text_length s
length-text_append [] s = rw nil-append (omega arith)
length-text_append (c ∷ p) s = rw cons-append (omega (arith, length-text_append p s))

append-Ends : (p : String) (c : Char) (s : String) → Ends (c ∷ s) → Ends (String.◌++◌ p (c ∷ s))
append-Ends [] c s h = rw nil-append h
append-Ends (d ∷ p) c s h = rw cons-append (rw (last-append d p c s) h)
  where
    last-append :
        (d : Char) (p : String) (c : Char) (s : String) → last d (String.◌++◌ p (c ∷ s)) ≡ last c s
    last-append d [] c s = rw nil-append refl
    last-append d (e ∷ p) c s = rw cons-append (last-append e p c s)

module _ ⦃u : Unicode⦄ where
  sanitize_name-Begins : (s : String) → Allowed (sanitize_name s) × Begins (sanitize_name s)
  unfolding sanitize_name
  sanitize_name-Begins s =
      let r = trim_start-Allowed (replace (to_lower s)) (replace-Allowed (to_lower s)) in
      or_repo-Begins _ (trim_end-Allowed _ r.0) (trim_end-Undashed _ r.1)

  -- Every Job name is a DNS-1123 label: at most 63 runes, all of them lower-case letters, digits or
  -- dashes, and the first and the last one a letter or a digit.
  pub job_name_lem :
      (cr_name repo : String)
      → let name = job_name cr_name repo in
        (text_length name ≤ 63) × Allowed name × Begins name × Ends name
  unfolding job_name
  job_name_lem cr_name repo =
      let base = sanitize_name (String.◌++◌ (String.◌++◌ cr_name "-") repo) in
      let b = sanitize_name-Begins (String.◌++◌ (String.◌++◌ cr_name "-") repo) in
      let p = prefix-Begins 53 base b.0 b.1 in
      let tail = hex 8 (sum32a repo) "" in
      (
        omega (
          arith,
          length-text_append (prefix max_base base) (dash ∷ tail),
          length-prefix max_base base,
          length-hex 8 (sum32a repo) "",
        ),
        append-Allowed (prefix max_base base) (dash ∷ tail) p.0
            (refl, hex-Allowed 8 (sum32a repo) "" tt),
        append-Begins (prefix max_base base) (dash ∷ tail) p.1,
        append-Ends (prefix max_base base) dash tail (
            unfold hex in rw (last-hex dash 7 (sum32a repo / 16) _ "") (digit-alnum (sum32a repo))),
      )
