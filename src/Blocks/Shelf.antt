-- ===== src/Blocks/Shelf.antt =====
-- The list of the blocks of a library (components/library/BlockLibrary.tsx). `toLowerCase` of the
-- language is the argument `to_lower`.
use Prim.Native.String
use veristc.Prelude.{
  ◌≡◌, refl, ◌∙◌, String, ◌==◌, if◌then◌else◌, Option, none, some, List, [], ◌∷◌, filter, Bool,
  true, false, arith, not, ◌&&◌, ◌||◌, or_else, lookup,
}
use veristc.Lang.Grouped.{groups_by, group-groups_by}
use veristc.Lang.Trim.{is_empty}
use veristc.Sim.Values.{includes}
use veristc.Blocks.Types.{AlgorithmBlock}

-- A block as the list reads it, with two keys that its type does not declare.
pub record ShelfBlock : Type 0 where
  pub block : AlgorithmBlock
  pub signal_type : Option String
  pub library_id : Option String

pub record Filters : Type 0 where
  pub category : String
  pub time_based : String
  pub signal_type : String
  pub search_text : String
  pub library : Option String

abbrev is_text : Option String → String → Bool
is_text none s = false
is_text (some t) s = t == s

-- `!libraryId || block.library_id === libraryId`
abbrev in_library : Option String → Option String → Bool
in_library none own = true
in_library (some id) own = is_empty id || is_text own id

-- `includes` is not asked about the empty text.
abbrev has_text : (String → String) → String → String → Bool
has_text to_lower text part = includes (to_lower text) (to_lower part)

unfoldable pub matches : (String → String) → Filters → ShelfBlock → Bool
matches to_lower f b =
    (f.category == "all" || b.block.category == f.category)
    && ((f.time_based == "all"
          || (f.time_based == "yes" && b.block.time_based
              || f.time_based == "no" && not b.block.time_based))
        && ((f.signal_type == "all" || is_text b.signal_type f.signal_type)
            && (in_library f.library b.library_id
                && (f.search_text == ""
                    || (has_text to_lower b.block.name f.search_text
                        || has_text to_lower b.block.description f.search_text)))))

unfoldable pub filtered_blocks : (String → String) → Filters → List ShelfBlock → List ShelfBlock
unfolding matches
filtered_blocks to_lower f blocks = filter (matches to_lower f) blocks

unfoldable pub grouped_blocks :
    (String → String) → Filters → List ShelfBlock → List (String × List ShelfBlock)
unfolding filtered_blocks groups_by
grouped_blocks to_lower f blocks =
    groups_by (λ b. true) (λ (b : ShelfBlock). b.block.category) (filtered_blocks to_lower f blocks)
      []

pub data Method : Type 0 where
  post put : Method

-- The request of `handleSaveBlock`, as its method and the path of its URL.
unfoldable pub save_request : Option String → AlgorithmBlock → Method × String
save_request library updated =
    if is_empty updated.id
    then (
      Method.post,
      elim library [
        | none ↦ "/library/blocks"
        | some id ↦
            if is_empty id
            then "/library/blocks"
            else String.◌++◌ "/library/libraries/" (String.◌++◌ id "/blocks")
      ],
    )
    else (Method.put, String.◌++◌ "/library/blocks/" updated.id)

-- The block of `handleCreateBlock`.
abbrev pub blank_block : AlgorithmBlock
blank_block = record {
  id = "";
  name = "NewBlock";
  category = "custom";
  version = "1.0.0";
  description = "";
  author = "";
  block_kind = "FB";
  time_based = false;
  inputs = [];
  outputs = [];
  parameters = [];
  st_template = "";
  icon_svg = "";
  tags = [];
  sha256 = none;
  created_at = none;
  updated_at = none;
  scope = none;
  path = none;
}

filter-and :
    (p q : ShelfBlock → Bool) (xs : List ShelfBlock)
    → filter (λ b. true && q b) (filter p xs) ≡ filter (λ b. p b && q b) xs
filter-and p q [] = refl
filter-and p q (x ∷ xs) = ground (arith, filter-and p q xs)

-- The list shows under each category the blocks of that category that match all filters, in the order
-- of the library, and no others.
pub lookup-grouped_blocks :
    (to_lower : String → String) (f : Filters) (blocks : List ShelfBlock) (category : String)
    → or_else (lookup category (grouped_blocks to_lower f blocks)) []
      ≡ filter (λ (b : ShelfBlock). matches to_lower f b && b.block.category == category) blocks
unfolding grouped_blocks filtered_blocks
lookup-grouped_blocks to_lower f blocks category =
    group-groups_by (λ b. true) (λ (b : ShelfBlock). b.block.category) category
      (filter (matches to_lower f) blocks) []
    ∙ filter-and (matches to_lower f) (λ (b : ShelfBlock). b.block.category == category) blocks
