-- ===== src/Prelude/Glob.antt =====
-- `path.Match`, over runes: the scan of a pattern in chunks between stars, and the match of a chunk.
-- Names and patterns that are ASCII have their bytes as runes.
pub mod Chunks
pub mod Fuel
use Prim.Native.Nat.{ℕ, zero, suc}
use Prim.Native.Char.{Char, code}
use Prim.Native.String.{String, [], ◌∷◌}
use mathlib.Core.Bool.{Bool, true, false, not, ◌&&◌, ◌||◌}
use mathlib.Core.Option.{Option, none, some}
use scm_metrics_exporter.Prelude.Tests.{leb, if◌then◌else◌, ◌==◌, nat_eq}

abbrev pub is : ℕ → Char → Bool
is n c = code c == n

abbrev pub is_blank : String → Bool
is_blank [] = true
is_blank (_ ∷ _) = false

abbrev pub size : String → ℕ
size [] = 0
size (_ ∷ s) = suc (size s)

-- The pattern without its leading stars, and whether it had any.
unfoldable pub leading_stars : Bool → String → Bool × String
leading_stars star [] = (star, [])
leading_stars star (c ∷ p) =
    let rest = leading_stars true p in if is 42 c then rest else (star, c ∷ p)

abbrev cons_first : Char → String × String → String × String
cons_first c (a, b) = (c ∷ a, b)

-- The pattern up to its next star that is neither escaped nor in brackets, and the rest.
unfoldable pub scan : Bool → Bool → String → String × String
scan escaped in_range [] = ([], [])
scan escaped in_range (c ∷ p) =
    let plain = cons_first c (scan false in_range p) in
    let escape = cons_first c (scan true in_range p) in
    let open_range = cons_first c (scan false true p) in
    let close_range = cons_first c (scan false false p) in
    if escaped
    then plain
    else if is 92 c
    then escape
    else if is 91 c
    then open_range
    else if is 93 c
    then close_range
    else if is 42 c && not in_range
    then ([], c ∷ p)
    else plain

abbrev pub unless_last : Char → String → Option (Char × String)
unless_last c p = if is_blank p then none else some (c, p)

abbrev pub escaped_rune : String → Option (Char × String)
escaped_rune [] = none
escaped_rune (d ∷ q) = unless_last d q

-- One rune of a bracket expression and the rest of the chunk, which is not empty.
unfoldable pub get_esc : String → Option (Char × String)
get_esc [] = none
get_esc (c ∷ p) =
    if is 45 c || is 93 c then none else if is 92 c then escaped_rune p else unless_last c p

-- The upper end of a range, which is the lower one unless a dash follows.
abbrev pub get_high : Char → String → Option (Char × String)
get_high lo [] = none
get_high lo (c ∷ p) = if is 45 c then get_esc p else some (lo, c ∷ p)

abbrev pub with_high : Char → Option (Char × String) → Option (Char × Char × String)
with_high lo none = none
with_high lo (some (hi, p)) = some (lo, hi, p)

abbrev pub low_and_high : Option (Char × String) → Option (Char × Char × String)
low_and_high none = none
low_and_high (some (lo, p)) = with_high lo (get_high lo p)

-- One range of a bracket expression, and the rest.
abbrev pub one_range : String → Option (Char × Char × String)
one_range p = low_and_high (get_esc p)

-- What follows a closing bracket, which does not stand first.
abbrev pub closing : Bool → String → Option String
closing any_range [] = none
closing any_range (c ∷ q) = if is 93 c && any_range then some q else none

abbrev pub holds : Char → Char → Option Char → Bool
holds lo hi none = false
holds lo hi (some c) = leb (code lo) (code c) && leb (code c) (code hi)

-- A round of a bracket expression: `next` reads the rest of it.
abbrev pub range_round :
    Option Char
    → (hit : Bool) → Option String
    → Option (Char × Char × String)
    → (Bool → String → Option (Bool × String))
    → Option (Bool × String)
range_round r hit (some q) range next = some (hit, q)
range_round r hit none none next = none
range_round r hit none (some (lo, hi, q)) next = next (hit || holds lo hi r) q

-- The rest of a bracket expression, for a rune or none: whether some range holds it, and what
-- follows the bracket. The fuel is more than the length of the pattern.
unfoldable pub ranges : ℕ → Option Char → Bool → Bool → String → Option (Bool × String)
ranges zero r hit any_range p = none
ranges (suc fuel) r hit any_range p =
    range_round r hit (closing any_range p) (one_range p) (λ hit q. ranges fuel r hit true q)

-- What a chunk does to a name: the pattern is malformed, the chunk does not match, or it matches a
-- beginning of the name and leaves the rest.
pub data Matched : Type 0 where
  bad_pattern missed : Matched
  left : String → Matched

abbrev pub first_rune : String → Option Char
first_rune [] = none
first_rune (c ∷ s) = some c

abbrev pub rest_runes : String → String
rest_runes [] = []
rest_runes (c ∷ s) = s

-- A bracket expression without its opening bracket and its `^`.
abbrev pub negation : String → Bool × String
negation [] = (false, [])
negation (c ∷ p) = if is 94 c then (true, p) else (false, c ∷ p)

abbrev pub equal_rune : Char → String → Bool
equal_rune c [] = false
equal_rune c (d ∷ s) = code c == code d

abbrev pub bad_rune : String → Bool
bad_rune [] = true
bad_rune (d ∷ s) = is 47 d

-- The four kinds of a chunk's first rune.
abbrev pub pick : Char → (bracket one escaped literal : Matched) → Matched
pick c bracket one escaped literal =
    if is 91 c then bracket else if is 63 c then one else if is 92 c then escaped else literal

abbrev pub after_escape : String → (Char → String → Matched) → Matched
after_escape [] next = bad_pattern
after_escape (d ∷ q) next = next d q

abbrev pub after_bracket : Option (Bool × String) → (Bool → String → Matched) → Matched
after_bracket none next = bad_pattern
after_bracket (some (hit, q)) next = next hit q

-- `failed` means that the chunk cannot match any more and only its syntax is read on. The fuel is
-- more than the length of the chunk.
unfoldable pub match_chunk : ℕ → Bool → String → String → Matched
match_chunk zero failed chunk s = missed
match_chunk (suc fuel) failed [] s = if failed then missed else left s
match_chunk (suc fuel) failed (c ∷ p) s =
    let failed = failed || is_blank s in
    let (negated, q) = negation p in
    let rune : Option Char = if failed then none else first_rune s in
    pick c
      (after_bracket (ranges (suc (size q)) rune false false q)
        (λ hit q. match_chunk fuel (failed || (if negated then hit else not hit)) q (rest_runes s)))
      (match_chunk fuel (failed || bad_rune s) p (rest_runes s))
      (after_escape p (λ d q. match_chunk fuel (failed || not (equal_rune d s)) q (rest_runes s)))
      (match_chunk fuel (failed || not (equal_rune c s)) p (rest_runes s))

abbrev chunk_at : String → String → Matched
chunk_at chunk s = match_chunk (suc (size chunk)) false chunk s

-- The first later position, with no slash before it, at which a chunk after a star matches; the last
-- chunk must also take the whole rest.
unfoldable pub star_match : Bool → String → String → Matched
star_match last chunk [] = missed
star_match last chunk (c ∷ s) =
    let later = star_match last chunk s in
    let here : Matched = elim (chunk_at chunk s) [
      | bad_pattern ↦ bad_pattern
      | missed ↦ later
      | left t ↦ if last && not (is_blank t) then later else left t
    ] in
    if is 47 c then missed else here

abbrev has_slash : String → Bool
has_slash [] = false
has_slash (c ∷ s) = is 47 c || has_slash s

-- What a chunk does at the end of the name: its syntax is read on.
abbrev pub read_on : Matched → Option Bool → Option Bool
read_on bad_pattern more = none
read_on missed more = more
read_on (left t) more = more

-- A mismatch is reported only if the rest of the pattern is well formed.
unfoldable pub check_rest : ℕ → String → Option Bool
check_rest zero p = some false
check_rest (suc fuel) [] = some false
check_rest (suc fuel) (c ∷ p) =
    let (chunk, rest) = scan false false (leading_stars false (c ∷ p)).1 in
    let more = check_rest fuel rest in read_on (chunk_at chunk "") more

-- A round of the match: `next` matches the rest of the pattern, `give_up` only reads it.
abbrev pub match_round :
    (star : Bool) → (chunk rest name : String) → (String → Option Bool) → Option Bool → Option Bool
match_round star chunk rest name next give_up =
    let from_star : Option Bool = elim (star_match (is_blank rest) chunk name) [
      | bad_pattern ↦ none
      | missed ↦ give_up
      | left t ↦ next t
    ] in
    let otherwise = if star then from_star else give_up in
    let now : Option Bool = elim (chunk_at chunk name) [
      | bad_pattern ↦ none
      | missed ↦ otherwise
      | left t ↦ if is_blank t || not (is_blank rest) then next t else otherwise
    ] in
    if star && is_blank chunk then some (not (has_slash name)) else now

-- `path.Match`: whether the name matches, or none for a malformed pattern. The fuel is more than the
-- length of the pattern.
unfoldable pub match_fuel : ℕ → String → String → Option Bool
match_fuel zero p name = none
match_fuel (suc fuel) [] name = some (is_blank name)
match_fuel (suc fuel) (c ∷ p) name =
    let (star, tail) = leading_stars false (c ∷ p) in
    let (chunk, rest) = scan false false tail in
    match_round star chunk rest name (match_fuel fuel rest) (check_rest fuel rest)

unfoldable pub path_match : String → String → Option Bool
unfolding match_fuel
path_match pattern name = match_fuel (suc (size pattern)) pattern name
