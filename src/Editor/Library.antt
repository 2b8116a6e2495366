-- ===== src/Editor/Library.antt =====
-- The index of the library that the graph page builds when it opens (pages/GraphEditorPage.tsx).
use veristc.Prelude.{
  ◌≡◌, ap, String, ◌==◌, eq_iff, eq_refl, if◌then◌else◌, some, List, [], ◌∷◌, Bool, true, ◌||◌, inl,
  inr, ◌⊎◌, insert, lookup, lookup-insert, In, arith, Bool-cases, is_some, subst,
}
use veristc.Chart.Types.{LibraryBlock}
use veristc.Chart.Pins.{Library}
use veristc.Editor.Names.{st_type_of}

-- `{ ...block, type: stTypeOf(block) }`
unfoldable pub typed : LibraryBlock → LibraryBlock
unfolding st_type_of
typed block = record block { type = some (st_type_of block) }

-- The three names under which a block is put into the index.
unfoldable pub put_block : LibraryBlock → Library → Library
unfolding typed st_type_of
put_block block index =
    insert block.name (typed block)
      (insert (st_type_of block) (typed block) (insert block.id (typed block) index))

unfoldable pub index_from : List LibraryBlock → Library → Library
unfolding put_block
index_from [] index = index
index_from (b ∷ bs) index = index_from bs (put_block b index)

unfoldable pub library_index : List LibraryBlock → Library
unfolding index_from
library_index blocks = index_from blocks []

-- A block goes by its id, its ST type and its display name.
abbrev pub GoesBy : String → LibraryBlock → Type 0
GoesBy key b = (b.id ≡ key) ⊎ ((b.type ≡ some key) ⊎ (b.name ≡ key))

-- What an entry of an index has to be.
abbrev Sound : Library → Type 0
Sound index = (key : String) (b : LibraryBlock) → lookup key index ≡ some b → GoesBy key b

abbrev goes_by : String → LibraryBlock → Bool
goes_by key b = b.name == key || (st_type_of b == key || b.id == key)

lookup-put_block :
    (block : LibraryBlock) (key : String) (index : Library)
    → lookup key (put_block block index)
      ≡ (if goes_by key block then some (typed block) else lookup key index)
unfolding put_block
lookup-put_block block key index = ground (
  arith,
  lookup-insert block.name key (typed block)
      (insert (st_type_of block) (typed block) (insert block.id (typed block) index)),
  lookup-insert (st_type_of block) key (typed block) (insert block.id (typed block) index),
  lookup-insert block.id key (typed block) index,
)

typed-GoesBy :
    (block : LibraryBlock) (key : String) → (goes_by key block) ≡ true → GoesBy key (typed block)
unfolding typed
typed-GoesBy block key h = elim (Bool-cases (block.id == key)) [
  | inl id ↦ inl ((eq_iff block.id key).0 id)
  | inr other ↦ elim (Bool-cases (st_type_of block == key)) [
    | inl type ↦ inr (inl (ap some ((eq_iff (st_type_of block) key).0 type)))
    | inr neither ↦ inr (inr ((eq_iff block.name key).0 (ground arith)))
  ]
]

put_block-Sound :
    (block : LibraryBlock) (index : Library) → Sound index → Sound (put_block block index)
put_block-Sound block index h key b e = elim (Bool-cases (goes_by key block)) [
  | inl own ↦
      let put : some (typed block) ≡ some b = rw (lookup-put_block block key index, own) at e in
      let same : typed block ≡ b = cc put in subst (GoesBy key) same (typed-GoesBy block key own)
  | inr other ↦ h key b (rw (lookup-put_block block key index, other) at e)
]

index_from-Sound :
    (bs : List LibraryBlock) (index : Library) → Sound index → Sound (index_from bs index)
unfolding index_from
index_from-Sound [] index h = h
index_from-Sound (b ∷ bs) index h =
    index_from-Sound bs (put_block b index) (put_block-Sound b index h)

index_from-keeps :
    (bs : List LibraryBlock) (index : Library) (key : String)
    → is_some (lookup key index) ≡ true
    → is_some (lookup key (index_from bs index)) ≡ true
unfolding index_from
index_from-keeps [] index key h = h
index_from-keeps (b ∷ bs) index key h =
    index_from-keeps bs (put_block b index) key (ground (arith, lookup-put_block b key index))

index_from-finds :
    (bs : List LibraryBlock) (b : LibraryBlock) (index : Library) (key : String)
    → In b bs
    → (goes_by key b) ≡ true
    → is_some (lookup key (index_from bs index)) ≡ true
unfolding index_from
index_from-finds [] b index key m h = absurd m
index_from-finds (c ∷ bs) b index key (inl e) h =
    index_from-keeps bs (put_block c index) key
      (ground (arith, lookup-put_block c key index, subst (λ x. goes_by key x ≡ true) e h))
index_from-finds (c ∷ bs) b index key (inr m) h = index_from-finds bs b (put_block c index) key m h

-- The index finds every block of the library under its id, under its ST type and under its display
-- name, and what it finds under a name goes by that name.
pub library_index-finds :
    (blocks : List LibraryBlock) (b : LibraryBlock)
    → In b blocks
    → (is_some (lookup b.id (library_index blocks)) ≡ true)
      × (is_some (lookup (st_type_of b) (library_index blocks)) ≡ true)
      × (is_some (lookup b.name (library_index blocks)) ≡ true)
      × ((key : String) (d : LibraryBlock)
          → lookup key (library_index blocks) ≡ some d
          → GoesBy key d)
unfolding library_index
library_index-finds blocks b m = (
  index_from-finds blocks b [] b.id m (ground (arith, eq_refl b.id)),
  index_from-finds blocks b [] (st_type_of b) m (ground (arith, eq_refl (st_type_of b))),
  index_from-finds blocks b [] b.name m (ground (arith, eq_refl b.name)),
  index_from-Sound blocks [] (λ key d e. absurd (cc e)),
)
