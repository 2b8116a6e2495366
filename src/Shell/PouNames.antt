-- ===== src/Shell/PouNames.antt =====
-- The names of new blocks (`pouNameOf`, `pouInSt` and `NewBlockPanel`, pages/HomePage.tsx).
-- `toUpperCase` of the language is the argument `to_upper`.
use Prim.Native.Char.{Char, code}
use Prim.Native.String
use veristc.Prelude.{
  String, ◌==◌, if◌then◌else◌, Option, none, some, or_else, or_try, Bool, true, false, not, ◌&&◌,
  ◌||◌, leb, nat_beq,
}
use veristc.Lang.Trim.{trim, is_empty, drop_start, drop_end}
use veristc.Editor.Names.{strip_prefix, is_name_start, is_name_char, then_name}

-- `[A-Z]` and `[A-Z0-9_]`
unfoldable pub is_capital : Char → Bool
is_capital c = leb b'A' (code c) && leb (code c) b'Z'

unfoldable pub is_pou_char : Char → Bool
unfolding is_capital
is_pou_char c = is_capital c || ((leb b'0' (code c) && leb (code c) b'9') || nat_beq (code c) b'_')

unfoldable pub is_underscore : Char → Bool
is_underscore c = nat_beq (code c) b'_'

-- Every other character becomes one underscore; a run of them becomes one in the next step, so that a
-- character of two code units makes no difference.
unfoldable pub pou_chars : String → String
unfolding is_pou_char
pou_chars String.[] = ""
pou_chars (String.◌∷◌ c s) = String.◌∷◌ (if is_pou_char c then c else "_") (pou_chars s)

abbrev pub starts_underscored : String → Bool
starts_underscored String.[] = false
starts_underscored (String.◌∷◌ c s) = nat_beq (code c) b'_'

unfoldable pub collapsed : String → String
unfolding is_underscore
collapsed String.[] = ""
collapsed (String.◌∷◌ c s) =
    let rest = collapsed s in
    if is_underscore c && starts_underscored s then rest else String.◌∷◌ c rest

abbrev pub all_chars : (Char → Bool) → String → Bool
all_chars p String.[] = true
all_chars p (String.◌∷◌ c s) = p c && all_chars p s

-- `/^[A-Z][A-Z0-9_]*$/` and `/^[A-Za-z_][A-Za-z0-9_]*$/`
unfoldable pub is_pou_name : String → Bool
unfolding is_capital is_pou_char
is_pou_name String.[] = false
is_pou_name (String.◌∷◌ c s) = is_capital c && all_chars is_pou_char s

unfoldable pub is_st_name : String → Bool
unfolding is_name_start is_name_char
is_st_name String.[] = false
is_st_name (String.◌∷◌ c s) = is_name_start c && all_chars is_name_char s

unfoldable pub pou_name_of : (String → String) → String → String
unfolding trim drop_start drop_end pou_chars collapsed is_pou_name is_underscore
pou_name_of to_upper value =
    let cleaned : String =
      drop_end is_underscore
        (drop_start is_underscore (collapsed (pou_chars (to_upper (trim value))))) in
    if is_pou_name cleaned then cleaned else ""

-- The leftmost match of a keyword that no word character stands before, with the name after it.
unfoldable pub search_word : String → Bool → String → Option String
unfolding is_name_char strip_prefix
search_word keyword after_word String.[] = none
search_word keyword after_word (String.◌∷◌ c s) =
    let rest = search_word keyword (is_name_char c) s in
    or_try (if after_word then none else then_name (strip_prefix keyword (String.◌∷◌ c s))) rest

unfoldable pub pou_in_st : String → String
unfolding search_word
pou_in_st value =
    or_else (or_try (search_word "FUNCTION_BLOCK" false value) (search_word "FUNCTION" false value))
      ""

abbrev skeleton_body : String
skeleton_body =
    "VAR_INPUT\n    IN : REAL;\nEND_VAR\nVAR_OUTPUT\n    OUT : REAL;\nEND_VAR\n\nOUT := IN;\nEND_FUNCTION_BLOCK"

unfoldable pub st_skeleton : String → String
st_skeleton type =
    String.◌++◌ "FUNCTION_BLOCK"
      (String.◌++◌ " " (String.◌++◌ type (String.◌∷◌ "\n" skeleton_body)))

-- The panel of a new block.
pub record NewBlock : Type 0 where
  pub name : String
  pub type_name : String
  pub type_edited : Bool
  pub category : String
  pub st : String
  pub busy : Bool
  -- Which of the three checks refused it.
  pub message : Option String

unfoldable pub new_block_panel : NewBlock
unfolding st_skeleton
new_block_panel = record {
  name = "";
  type_name = "NEW_BLOCK";
  type_edited = false;
  category = "control";
  st = st_skeleton "NEW_BLOCK";
  busy = false;
  message = none;
}

-- A source that is still the skeleton follows the name of the type.
unfoldable pub renamed_st : String → NewBlock → String
unfolding st_skeleton
renamed_st value b = if b.st == st_skeleton b.type_name then st_skeleton value else b.st

-- A name is typed, and the effect that suggests the type's name has run.
unfoldable pub on_name : (String → String) → String → NewBlock → NewBlock
unfolding pou_name_of renamed_st
on_name to_upper name b =
    let suggested : String = pou_name_of to_upper name in
    if is_empty suggested || b.type_edited
    then record b { name = name }
    else record b { name = name; st = renamed_st suggested b; type_name = suggested }

unfoldable pub on_type_name : String → NewBlock → NewBlock
unfolding renamed_st
on_type_name value b = record b { st = renamed_st value b; type_name = value; type_edited = true }

unfoldable pub on_st : String → NewBlock → NewBlock
on_st value b = record b { st = value }

-- The three checks of `submit`, and whether the request goes out.
unfoldable pub submit : NewBlock → NewBlock × Bool
unfolding trim is_st_name pou_in_st
submit b =
    if is_empty (trim b.name)
    then (record b { message = some "home.blockNameRequired" }, false)
    else if not (is_st_name (trim b.type_name))
    then (record b { message = some "home.typeNameValidation" }, false)
    else if not (pou_in_st b.st == trim b.type_name)
    then (record b { message = some "home.stTypeMismatch" }, false)
    else (record b { busy = true }, true)
