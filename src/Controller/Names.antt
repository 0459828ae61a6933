-- ===== src/Controller/Names.antt =====
-- `jobName` and `sanitizeName` of internal/controller/render.go, with the 32-bit FNV-1a hash of
-- hash/fnv over the UTF-8 bytes of the repository's name.
pub mod Valid
use Prim.Native.Char.{Char, code, char, nul}
use Prim.Native.String
use Prim.Native.String.{String, [], ◌∷◌}
use scm_metrics_exporter.Prelude.{
  ℕ, zero, suc, ◌+◌, ◌-◌, ◌*◌, ◌/◌, ◌%◌, ◌^◌, Bool, true, false, ◌&&◌, ◌||◌, List, [], ◌∷◌, ◌++◌,
  if◌then◌else◌, ◌==◌, nat_eq, leb, ltb,
}
use scm_metrics_exporter.Prelude.Text.{Unicode, to_lower, nth}

-- The UTF-8 bytes of a rune.
unfoldable pub utf8 : ℕ → List ℕ
utf8 n =
    let tail = λ (k : ℕ). 128 + (n / 64 ^ k) % 64 in
    if ltb n 128
    then n ∷ []
    else if ltb n 2048
    then (192 + n / 64) ∷ tail 0 ∷ []
    else if ltb n 65536
    then (224 + n / 4096) ∷ tail 1 ∷ tail 0 ∷ []
    else (240 + n / 262144) ∷ tail 2 ∷ tail 1 ∷ tail 0 ∷ []

unfoldable pub bytes : String → List ℕ
bytes [] = []
bytes (c ∷ s) = utf8 (code c) ++ bytes s

-- Exclusive or of numbers below 2 ^ fuel.
unfoldable pub xor : ℕ → ℕ → ℕ → ℕ
xor zero a b = 0
xor (suc fuel) a b =
    let rest = 2 * xor fuel (a / 2) (b / 2) in if a % 2 == b % 2 then rest else rest + 1

unfoldable pub fnv_step : ℕ → ℕ → ℕ
fnv_step h b = (xor 32 h b * 16777619) % 2 ^ 32

unfoldable pub fnv : List ℕ → ℕ → ℕ
fnv [] h = h
fnv (b ∷ bs) h = fnv bs (fnv_step h b)

unfoldable pub sum32a : String → ℕ
sum32a s = fnv (bytes s) 2166136261

-- `%08x` at a 32-bit number, in front of what follows it.
unfoldable pub hex : ℕ → ℕ → String → String
hex zero n rest = rest
hex (suc digits) n rest = hex digits (n / 16) (nth "0123456789abcdef" (n % 16) nul ∷ rest)

abbrev pub dash : Char
dash = char 45 tt

abbrev pub is_alnum : ℕ → Bool
is_alnum n = (leb 97 n && leb n 122) || (leb 48 n && leb n 57)

abbrev pub is_dash : Char → Bool
is_dash c = code c == 45

unfoldable pub replace : String → String
replace [] = []
replace (c ∷ s) = (if is_alnum (code c) || is_dash c then c else dash) ∷ replace s

-- `strings.Trim(s, "-")`
unfoldable pub trim_start : String → String
trim_start [] = []
trim_start (c ∷ s) = let rest = trim_start s in if is_dash c then rest else c ∷ s

abbrev pub keep_end : Char → String → String
keep_end c [] = if is_dash c then [] else c ∷ []
keep_end c (d ∷ r) = c ∷ (d ∷ r)

unfoldable pub trim_end : String → String
trim_end [] = []
trim_end (c ∷ s) = keep_end c (trim_end s)

abbrev pub or_repo : String → String
or_repo [] = "repo"
or_repo (c ∷ s) = c ∷ s

abbrev pub max_base : ℕ
max_base = 63 - 9

-- A sanitized text is ASCII, so its bytes are its runes.
unfoldable pub prefix : ℕ → String → String
prefix zero s = []
prefix (suc n) [] = []
prefix (suc n) (c ∷ s) = c ∷ prefix n s

module _ ⦃u : Unicode⦄ where
  unfoldable pub sanitize_name : String → String
  sanitize_name s = or_repo (trim_end (trim_start (replace (to_lower s))))

  unfoldable pub job_name : String → String → String
  job_name cr_name repo =
      let base = sanitize_name (String.◌++◌ (String.◌++◌ cr_name "-") repo) in
      String.◌++◌ (prefix max_base base) (dash ∷ hex 8 (sum32a repo) "")
