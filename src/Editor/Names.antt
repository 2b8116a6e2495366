-- ===== src/Editor/Names.antt =====
-- The names that the editor makes up (pages/GraphEditorPage.tsx).
use Prim.Native.Char.{Char, code}
use Prim.Native.String
use veristc.Prelude.{
  ℕ, zero, suc, String, Bool, ◌&&◌, ◌||◌, leb, nat_beq, if◌then◌else◌, Option, none, some, or_else,
  or_try, List, contains, length,
}
use veristc.Chart.Types.{LibraryBlock}
use veristc.Lang.Chars.{lower, is_id_char, filter_chars, map_chars}
use veristc.Lang.Decimal.{decimal}

-- `stem.toLowerCase().replace(/[^a-z0-9_]/g, "")`
unfoldable pub id_base : String → String
unfolding lower is_id_char filter_chars map_chars
id_base stem = filter_chars is_id_char (map_chars lower stem)

-- `${base}${index}`
unfoldable pub candidate : String → ℕ → String
unfolding decimal
candidate base index = String.◌++◌ base (decimal index)

-- The loop of `uniqueId` from an index on. With as many rounds as there are names taken, the
-- candidate that is left over needs no test.
unfoldable pub unique_from : ℕ → String → List String → ℕ → String
unfolding candidate
unique_from zero base taken index = candidate base index
unique_from (suc rounds) base taken index =
    let rest = unique_from rounds base taken (suc index) in
    if contains taken (candidate base index) then rest else candidate base index

unfoldable pub unique_id : List String → String → String
unfolding id_base unique_from
unique_id taken stem = unique_from (length taken) (id_base stem) taken 1

-- What is left of a text behind a prefix.
abbrev pub strip_prefix : String → String → Option String
strip_prefix String.[] s = some s
strip_prefix (String.◌∷◌ p ps) String.[] = none
strip_prefix (String.◌∷◌ p ps) (String.◌∷◌ c s) =
    if nat_beq (code p) (code c) then strip_prefix ps s else none

-- `\s`, in ASCII
unfoldable pub is_blank : Char → Bool
is_blank c = nat_beq (code c) 32 || (leb 9 (code c) && leb (code c) 13)

-- `[A-Za-z_]` and `[A-Za-z0-9_]`
unfoldable pub is_name_start : Char → Bool
is_name_start c =
    (leb b'A' (code c) && leb (code c) b'Z')
    || ((leb b'a' (code c) && leb (code c) b'z') || nat_beq (code c) b'_')

unfoldable pub is_name_char : Char → Bool
unfolding is_name_start
is_name_char c = is_name_start c || (leb b'0' (code c) && leb (code c) b'9')

-- The longest run of name characters at the front.
unfoldable pub name_run : String → String
unfolding is_name_char
name_run String.[] = ""
name_run (String.◌∷◌ c s) = if is_name_char c then String.◌∷◌ c (name_run s) else ""

-- `\s*([A-Za-z_][A-Za-z0-9_]*)`
unfoldable pub blanks_then_name : String → Option String
unfolding is_blank name_run
blanks_then_name String.[] = none
blanks_then_name (String.◌∷◌ c s) =
    if is_blank c
    then blanks_then_name s
    else if is_name_start c
    then some (String.◌∷◌ c (name_run s))
    else none

-- `\s+([A-Za-z_][A-Za-z0-9_]*)`
unfoldable pub declared_name : String → Option String
unfolding blanks_then_name
declared_name String.[] = none
declared_name (String.◌∷◌ c s) = if is_blank c then blanks_then_name s else none

abbrev pub then_name : Option String → Option String
then_name none = none
then_name (some s) = declared_name s

-- The regular expression of `stTypeOf` at the front of a text.
unfoldable pub match_header : String → Option String
unfolding declared_name
match_header s =
    or_try (then_name (strip_prefix "FUNCTION_BLOCK" s)) (then_name (strip_prefix "FUNCTION" s))

-- Its leftmost match.
unfoldable pub search_header : String → Option String
unfolding match_header
search_header String.[] = none
search_header (String.◌∷◌ c s) = or_try (match_header (String.◌∷◌ c s)) (search_header s)

-- The ST type name that a library entry is written as.
unfoldable pub st_type_of : LibraryBlock → String
unfolding search_header
st_type_of block = or_else (search_header (or_else block.st_template "")) block.name
