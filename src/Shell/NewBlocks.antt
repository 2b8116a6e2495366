-- ===== src/Shell/NewBlocks.antt =====
-- What the panel of a new block offers (`NewBlockPanel`, pages/HomePage.tsx).
use veristc.Prelude.{◌≡◌, refl, String, eq_refl, some, false, ◌||◌, Bool-cases, inl, inr}
use veristc.Blocks.Naming.{IsName, strip_prefix-append, declared_name-append}
use veristc.Lang.Trim.{is_empty}
use veristc.Editor.Names.{strip_prefix, declared_name}
use veristc.Shell.PouNames.{
  pou_name_of, search_word, pou_in_st, st_skeleton, NewBlock, new_block_panel, renamed_st, on_name,
  on_type_name,
}

search_word-block :
    (t rest s : String)
    → strip_prefix "FUNCTION_BLOCK" t ≡ some rest
    → declared_name rest ≡ some s
    → search_word "FUNCTION_BLOCK" false t ≡ some s
unfolding search_word
search_word-block String.[] rest s h e = absurd (cc h)
search_word-block (String.◌∷◌ c t) rest s h e = rw (h, e) refl

skeleton_found :
    (type : String)
    → IsName type
    → search_word "FUNCTION_BLOCK" false (st_skeleton type) ≡ some type
unfolding st_skeleton
skeleton_found type h =
    search_word-block _ _ type (strip_prefix-append "FUNCTION_BLOCK" "" _)
      (declared_name-append type _ h)

-- The skeleton of a type declares that type.
pub pou_in_st-st_skeleton : (type : String) → IsName type → pou_in_st (st_skeleton type) ≡ type
unfolding pou_in_st
pou_in_st-st_skeleton type h =
    let found : search_word "FUNCTION_BLOCK" false (st_skeleton type) ≡ some type =
      skeleton_found type h in
    rw found refl

-- A panel whose source is the skeleton of its type.
abbrev pub Follows : NewBlock → Type 0
Follows b = b.st ≡ st_skeleton b.type_name

renamed_st-Follows :
    (value : String) (b : NewBlock) → Follows b → renamed_st value b ≡ st_skeleton value
unfolding renamed_st
renamed_st-Follows value b h = rw (h, eq_refl (st_skeleton b.type_name)) refl

-- As long as the source is not edited by hand, it is the skeleton of the type's name, whatever is typed
-- as the block's name and as the type's name.
pub on_name-Follows :
    (to_upper : String → String) (name : String) (b : NewBlock)
    → Follows b
    → Follows (on_name to_upper name b)
unfolding on_name
on_name-Follows to_upper name b h =
    elim (Bool-cases (is_empty (pou_name_of to_upper name) || b.type_edited)) [
      | inl kept ↦ rw kept h
      | inr new ↦ rw new (renamed_st-Follows (pou_name_of to_upper name) b h)
    ]

pub on_type_name-Follows :
    (value : String) (b : NewBlock) → Follows b → Follows (on_type_name value b)
unfolding on_type_name
on_type_name-Follows value b h = renamed_st-Follows value b h

new_block_panel-Follows : Follows new_block_panel
unfolding new_block_panel
new_block_panel-Follows = refl
