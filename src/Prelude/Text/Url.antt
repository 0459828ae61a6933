-- ===== src/Prelude/Text/Url.antt =====
-- `url.PathEscape` and `url.QueryEscape`: every byte of the UTF-8 form that is not plain becomes
-- a percent sign with two hexadecimal digits.
use Prim.Native.Nat.{ℕ, ◌+◌, ◌/◌, ◌%◌}
use Prim.Native.Char.{Char, code, nul, char}
use Prim.Native.String.{String, [], ◌∷◌}
use mathlib.Core.Bool.{Bool, ◌&&◌, ◌||◌}
use mathlib.Core.List.{List}
use scm_metrics_exporter.Prelude.Tests.{ltb, leb, if◌then◌else◌, ◌==◌, nat_eq}
use scm_metrics_exporter.Prelude.Text.{nth}

-- The bytes of a rune.
unfoldable pub utf8 : ℕ → List ℕ
utf8 n =
    if ltb n 0x80
    then List.◌∷◌ n List.[]
    else if ltb n 0x800
    then List.◌∷◌ (0xC0 + n / 64) (List.◌∷◌ (0x80 + n % 64) List.[])
    else if ltb n 0x10000
    then List.◌∷◌ (0xE0 + n / 4096)
        (List.◌∷◌ (0x80 + n / 64 % 64) (List.◌∷◌ (0x80 + n % 64) List.[]))
    else List.◌∷◌ (0xF0 + n / 262144) (
        List.◌∷◌ (0x80 + n / 4096 % 64)
          (List.◌∷◌ (0x80 + n / 64 % 64) (List.◌∷◌ (0x80 + n % 64) List.[])))

abbrev upper_hex : ℕ → Char
upper_hex d = nth "0123456789ABCDEF" d nul

unfoldable percent : List ℕ → String → String
percent List.[] rest = rest
percent (List.◌∷◌ b bs) rest =
    char 37 tt ∷ (upper_hex (b / 16) ∷ (upper_hex (b % 16) ∷ percent bs rest))

-- Letters, digits and `-_.~`.
abbrev is_unreserved : ℕ → Bool
is_unreserved n =
    ((leb 97 n && leb n 122) || ((leb 65 n && leb n 90) || (leb 48 n && leb n 57)))
    || (n == 45 || (n == 95 || (n == 46 || n == 126)))

-- The signs `$&+:=@` are also plain in a segment of a path.
abbrev is_path_plain : ℕ → Bool
is_path_plain n =
    is_unreserved n || (n == 36 || (n == 38 || (n == 43 || (n == 58 || (n == 61 || n == 64)))))

unfoldable pub path_escape : String → String
unfolding percent utf8
path_escape [] = []
path_escape (c ∷ s) =
    let rest = path_escape s in
    if is_path_plain (code c) then c ∷ rest else percent (utf8 (code c)) rest

unfoldable pub query_escape : String → String
unfolding percent utf8
query_escape [] = []
query_escape (c ∷ s) =
    let rest = query_escape s in
    if is_unreserved (code c)
    then c ∷ rest
    else if code c == 32
    then char 43 tt ∷ rest
    else percent (utf8 (code c)) rest
