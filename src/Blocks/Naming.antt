-- ===== src/Blocks/Naming.antt =====
-- The name under which the graph page writes a block whose source is the editor's skeleton
-- (`skeleton`, components/library/BlockEditor.tsx; `stTypeOf`, pages/GraphEditorPage.tsx).
use Prim.Native.Char.{Char}
use Prim.Native.String
use text.Mathlib.TextLemmas.{nil-append, cons-append, append_assoc}
use veristc.Prelude.{
  ◌≡◌, refl, ap, ◌∙◌, String, ◌==◌, none, some, or_else, List, [], ◌∷◌, ◌++◌, true, false, arith,
  Bool-cases, inl, inr, is_nil, map,
}
use veristc.Chart.Types.{Scalar, LibraryBlock}
use veristc.Lang.Chars.{AllChars}
use veristc.Blocks.Types.{BlockPort, BlockParameter}
use veristc.Blocks.Skeleton.{
  skeleton, sanitize_or, join_lines, keyword_of, end_keyword, declaration, port_line,
  parameter_line,
}
use veristc.Editor.Names.{
  strip_prefix, is_blank, is_name_start, is_name_char, name_run, blanks_then_name, declared_name,
  match_header, search_header, st_type_of,
}

-- `[A-Za-z_][A-Za-z0-9_]*`
abbrev pub IsName : String → Type 0
IsName String.[] = ⊥
IsName (String.◌∷◌ c s) = (is_name_start c ≡ true) × AllChars is_name_char s

abbrev pub line_end : String → String
line_end s = String.◌∷◌ "\n" s

pub strip_prefix-append :
    (p q s : String) → strip_prefix (String.◌++◌ p q) (String.◌++◌ p s) ≡ strip_prefix q s
strip_prefix-append String.[] q s = rw (nil-append q, nil-append s) refl
strip_prefix-append (String.◌∷◌ c p) q s =
    rw (cons-append c p q, cons-append c p s) (ground (arith, strip_prefix-append p q s))

name_run-append :
    (s rest : String) → AllChars is_name_char s → name_run (String.◌++◌ s (line_end rest)) ≡ s
unfolding name_run is_name_char is_name_start
name_run-append String.[] rest h = rw (nil-append (line_end rest)) refl
name_run-append (String.◌∷◌ c s) rest h =
    rw (cons-append c s (line_end rest), h.0) (ap (String.◌∷◌ c) (name_run-append s rest h.1))

name_start_not_blank : (c : Char) → is_name_start c ≡ true → is_blank c ≡ false
unfolding is_name_start is_blank
name_start_not_blank c h = ground arith

blanks_then_name-append :
    (s rest : String) → IsName s → blanks_then_name (String.◌++◌ s (line_end rest)) ≡ some s
unfolding blanks_then_name
blanks_then_name-append String.[] rest h = absurd h
blanks_then_name-append (String.◌∷◌ c s) rest h =
    rw (cons-append c s (line_end rest), name_start_not_blank c h.0, h.0)
      (ap (λ t. some (String.◌∷◌ c t)) (name_run-append s rest h.1))

space-append : (t : String) → String.◌++◌ " " t ≡ String.◌∷◌ " " t
space-append t = cons-append " " "" t ∙ ap (String.◌∷◌ " ") (nil-append t)

pub declared_name-append :
    (s rest : String)
    → IsName s
    → declared_name (String.◌++◌ " " (String.◌++◌ s (line_end rest))) ≡ some s
unfolding declared_name is_blank
declared_name-append s rest h =
    rw (space-append (String.◌++◌ s (line_end rest))) (blanks_then_name-append s rest h)

-- A keyword, a blank and a name are read as that name.
match_header-function :
    (t : String) (s : String)
    → declared_name (String.◌++◌ " " t) ≡ some s
    → match_header (String.◌++◌ "FUNCTION" (String.◌++◌ " " t)) ≡ some s
unfolding match_header
match_header-function t s h =
    let block : strip_prefix "FUNCTION_BLOCK" (String.◌++◌ "FUNCTION" (String.◌++◌ " " t)) ≡ none =
      strip_prefix-append "FUNCTION" "_BLOCK" (String.◌++◌ " " t)
      ∙ ap (strip_prefix "_BLOCK") (space-append t) in
    let plain : strip_prefix "FUNCTION" (String.◌++◌ "FUNCTION" (String.◌++◌ " " t))
        ≡ some (String.◌++◌ " " t) =
      strip_prefix-append "FUNCTION" "" (String.◌++◌ " " t) in
    rw (block, plain) h

match_header-block :
    (t : String) (s : String)
    → declared_name (String.◌++◌ " " t) ≡ some s
    → match_header (String.◌++◌ "FUNCTION_BLOCK" (String.◌++◌ " " t)) ≡ some s
unfolding match_header
match_header-block t s h =
    let block : strip_prefix "FUNCTION_BLOCK" (String.◌++◌ "FUNCTION_BLOCK" (String.◌++◌ " " t))
        ≡ some (String.◌++◌ " " t) =
      strip_prefix-append "FUNCTION_BLOCK" "" (String.◌++◌ " " t) in
    rw (block, h) refl

search_header-match : (t s : String) → match_header t ≡ some s → search_header t ≡ some s
unfolding search_header match_header
search_header-match String.[] s h = absurd (cc h)
search_header-match (String.◌∷◌ c t) s h = rw h refl

search_header-keyword :
    (block_kind t s : String)
    → declared_name (String.◌++◌ " " t) ≡ some s
    → search_header (String.◌++◌ (keyword_of block_kind) (String.◌++◌ " " t)) ≡ some s
search_header-keyword block_kind t s h = elim (Bool-cases (block_kind == "FUN")) [
  | inl function ↦ rw function (search_header-match _ s (match_header-function t s h))
  | inr block ↦ rw block (search_header-match _ s (match_header-block t s h))
]

is_nil-append : (xs ys : List String) → is_nil ys ≡ false → is_nil (xs ++ ys) ≡ false
is_nil-append [] ys h = h
is_nil-append (x ∷ xs) ys h = refl

newline-append : (t : String) → String.◌++◌ "\n" t ≡ line_end t
newline-append t = cons-append "\n" "" t ∙ ap (String.◌∷◌ "\n") (nil-append t)

-- Lines begin with the first one and its end.
join_lines-cons :
    (a b c : String) (ls : List String)
    → is_nil ls ≡ false
    → (rest : String) × (join_lines (String.◌++◌ a (String.◌++◌ b c) ∷ ls)
        ≡ String.◌++◌ a (String.◌++◌ b (String.◌++◌ c (line_end rest))))
join_lines-cons a b c [] h = absurd (cc h)
join_lines-cons a b c (l ∷ ls) h = (
  join_lines (l ∷ ls),
  append_assoc a (String.◌++◌ b c) (String.◌++◌ "\n" (join_lines (l ∷ ls)))
      ∙ ap (String.◌++◌ a) (
          append_assoc b c (String.◌++◌ "\n" (join_lines (l ∷ ls)))
          ∙ ap (λ t. String.◌++◌ b (String.◌++◌ c t)) (newline-append (join_lines (l ∷ ls)))),
)

-- A block whose source is the skeleton that the editor puts down for it is written on the page under
-- its own name, less tags and blanks around it, if that is a name of the language.
pub st_type_of-skeleton :
    (shown : Scalar → String) (name block_kind : String) (inputs outputs : List BlockPort)
    (parameters : List BlockParameter) (entry : LibraryBlock)
    → IsName (sanitize_or name "UnnamedBlock")
    → entry.st_template ≡ some (skeleton shown name block_kind inputs outputs parameters)
    → st_type_of entry ≡ sanitize_or name "UnnamedBlock"
unfolding st_type_of skeleton
st_type_of-skeleton shown name block_kind inputs outputs parameters entry h e =
    let name' : String = sanitize_or name "UnnamedBlock" in
    let (rest, begins) =
      join_lines-cons (keyword_of block_kind) " " name'
        (declaration "VAR_INPUT" (map port_line inputs)
          ++ (declaration "VAR_OUTPUT" (map port_line outputs)
              ++ (declaration "VAR" (map (parameter_line shown) parameters)
                  ++ "" ∷ end_keyword block_kind ∷ [])))
        (is_nil-append (declaration "VAR_INPUT" (map port_line inputs)) _ (
          is_nil-append (declaration "VAR_OUTPUT" (map port_line outputs)) _
            (is_nil-append (declaration "VAR" (map (parameter_line shown) parameters)) _ refl))) in
    let found : search_header (skeleton shown name block_kind inputs outputs parameters)
        ≡ some name' =
      ap search_header begins
      ∙ search_header-keyword block_kind (String.◌++◌ name' (line_end rest)) name'
          (declared_name-append name' rest h) in
    rw (e, or_else, found) refl
