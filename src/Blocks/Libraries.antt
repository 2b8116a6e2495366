-- ===== src/Blocks/Libraries.antt =====
-- The library page and the list of libraries (pages/LibraryPage.tsx,
-- components/library/LibraryListPanel.tsx). Each handler is given the answer that it waits for.
use veristc.Prelude.{
  ◌≡◌, refl, sym, ap, ap₂, eq_iff, String, ◌==◌, if◌then◌else◌, Option, none, some, List, [], ◌∷◌,
  map, filter, Bool, false, not, ℕ, Bool-cases, inl, inr, any, arith,
}
use veristc.Lang.Trim.{trim, is_empty}
use veristc.Blocks.Types.{AlgorithmBlock}

pub record LibraryRow : Type 0 where
  pub id : String
  pub name : String
  pub description : String
  pub owner : String
  pub version : String
  pub is_shared : Bool
  pub blocks_count : ℕ
  pub created_at : String
  pub updated_at : String
  pub scope : String
  pub directory : String

pub record LibraryPage : Type 0 where
  pub blocks : List AlgorithmBlock
  pub selected_block : Option String
  pub selected_library : Option String

-- An answer: a body, a status that is no success, or no answer at all.
pub data Reply (A : Type 0) : Type 0 where
  body : A → Reply A
  status broken : Reply A

pub data Toast : Type 0 where
  success error silent : Toast

-- `fetchBlocks`, for the library that was selected.
unfoldable pub fetch_blocks : Reply (List AlgorithmBlock) → LibraryPage → LibraryPage
fetch_blocks (Reply.body blocks) p = record p { blocks = blocks }
fetch_blocks Reply.status p = p
fetch_blocks Reply.broken p = p

-- `handleBlockSaved`
unfoldable pub handle_block_saved : AlgorithmBlock → LibraryPage → LibraryPage
handle_block_saved updated p = record p {
  blocks = map (λ (b : AlgorithmBlock). if b.id == updated.id then updated else b) p.blocks;
}

abbrev is_selected : Option String → String → Bool
is_selected none id = false
is_selected (some s) id = s == id

-- `handleDeleteBlock`
unfoldable pub handle_delete_block : String → Reply Unit → LibraryPage → LibraryPage × Toast
handle_delete_block id (Reply.body ok) p = (
  record p {
    blocks = filter (λ (b : AlgorithmBlock). not (b.id == id)) p.blocks;
    selected_block = if is_selected p.selected_block id then none else p.selected_block;
  },
  Toast.success,
)
handle_delete_block id Reply.status p = (p, Toast.error)
handle_delete_block id Reply.broken p = (p, Toast.error)

-- The list of libraries with the dialog for a new one.
pub record LibraryList : Type 0 where
  pub libraries : List LibraryRow
  pub show_create_dialog : Bool
  pub new_lib_name : String
  pub new_lib_desc : String

unfoldable pub fetch_libraries : Reply (List LibraryRow) → LibraryList → LibraryList
fetch_libraries (Reply.body rows) l = record l { libraries = rows }
fetch_libraries Reply.status l = l
fetch_libraries Reply.broken l = l

-- `handleCreate` of the list: what is sent, if a name was typed.
unfoldable pub create_request : LibraryList → Option (String × String)
unfolding trim
create_request l =
    if is_empty (trim l.new_lib_name) then none else some (l.new_lib_name, l.new_lib_desc)

-- Its answer, and that of the refresh that follows a success.
unfoldable pub handle_create :
    Reply Unit → Reply (List LibraryRow) → LibraryList → LibraryList × Toast
unfolding fetch_libraries
handle_create (Reply.body ok) rows l = (
  fetch_libraries rows
      (record l { show_create_dialog = false; new_lib_name = ""; new_lib_desc = "" }),
  Toast.success,
)
handle_create Reply.status rows l = (l, Toast.error)
handle_create Reply.broken rows l = (l, Toast.error)

-- `handleDelete` that the user confirms: the selection goes to the default library, if it was on the one
-- that is deleted. A status that is no success shows nothing.
unfoldable pub handle_delete :
    String
    → Reply Unit
    → Reply (List LibraryRow)
    → LibraryPage
    → LibraryList
    → (LibraryPage × LibraryList) × Toast
unfolding fetch_libraries
handle_delete id (Reply.body ok) rows p l = (
  (
    record p {
      selected_library =
          if is_selected p.selected_library id then some "user-default" else p.selected_library;
    },
    fetch_libraries rows l,
  ),
  Toast.success,
)
handle_delete id Reply.status rows p l = ((p, l), Toast.silent)
handle_delete id Reply.broken rows p l = ((p, l), Toast.error)

-- `handleClear` that the user confirms.
unfoldable pub handle_clear :
    Reply Unit → Reply (List LibraryRow) → LibraryList → LibraryList × Toast
unfolding fetch_libraries
handle_clear (Reply.body ok) rows l = (fetch_libraries rows l, Toast.success)
handle_clear Reply.status rows l = (l, Toast.silent)
handle_clear Reply.broken rows l = (l, Toast.error)

-- The answer to an imported file.
unfoldable pub handle_import :
    Reply String → Reply (List LibraryRow) → LibraryList → LibraryList × Toast
unfolding fetch_libraries
handle_import (Reply.body id) rows l = (fetch_libraries rows l, Toast.success)
handle_import Reply.status rows l = (l, Toast.error)
handle_import Reply.broken rows l = (l, Toast.error)

abbrev pub ids_of : List AlgorithmBlock → List String
ids_of blocks = map (λ (b : AlgorithmBlock). b.id) blocks

any-filter-not :
    (id : String) (blocks : List AlgorithmBlock)
    → any
        (λ (b : AlgorithmBlock). b.id == id)
        (filter (λ (b : AlgorithmBlock). not (b.id == id)) blocks)
      ≡ false
any-filter-not id [] = refl
any-filter-not id (b ∷ bs) = ground (arith, any-filter-not id bs)

selected_after :
    (id : String) (s : Option String)
    → is_selected (if is_selected s id then none else s) id ≡ false
selected_after id none = refl
selected_after id (some s) = ground arith

-- A deleted block is in no list and not selected any more; a deletion that is refused changes nothing.
pub handle_delete_block-gone :
    (id : String) (p : LibraryPage)
    → (let q : LibraryPage = (handle_delete_block id (Reply.body tt) p).0 in
        (any (λ (b : AlgorithmBlock). b.id == id) q.blocks ≡ false)
        × (is_selected q.selected_block id ≡ false))
      × (handle_delete_block id Reply.status p ≡ (p, Toast.error))
unfolding handle_delete_block
handle_delete_block-gone id p =
    ((any-filter-not id p.blocks, selected_after id p.selected_block), refl)

ids-map_saved :
    (updated : AlgorithmBlock) (blocks : List AlgorithmBlock)
    → ids_of (map (λ (b : AlgorithmBlock). if b.id == updated.id then updated else b) blocks)
      ≡ ids_of blocks
ids-map_saved updated [] = refl
ids-map_saved updated (b ∷ bs) = elim (Bool-cases (b.id == updated.id)) [
  | inl same ↦ rw same (ap₂ ◌∷◌ (sym ((eq_iff b.id updated.id).0 same)) (ids-map_saved updated bs))
  | inr other ↦ rw other (ap (◌∷◌ b.id) (ids-map_saved updated bs))
]

-- A saved block stands in the place of the one of its id; no id comes or goes, so a new one is seen only
-- when the list is read again.
pub handle_block_saved-ids :
    (updated : AlgorithmBlock) (p : LibraryPage)
    → ids_of (handle_block_saved updated p).blocks ≡ ids_of p.blocks
unfolding handle_block_saved
handle_block_saved-ids updated p = ids-map_saved updated p.blocks
