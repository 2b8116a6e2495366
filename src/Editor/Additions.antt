-- ===== src/Editor/Additions.antt =====
-- The page after an element is added (`dropBlock`, `addConstant`, `addPort`).
use veristc.Prelude.{
  ◌≡◌, refl, ap, sym, subst, String, eq_iff, or_try, List, [], ◌∷◌, ◌++◌, map, append_assoc, true,
  false, All-mono, contains, contains-append, Nodup, Nodup-concat, lookup, arith, Option-cases, ◌⊎◌,
  inl, inr, or_else,
}
use veristc.Chart.Types.{
  PageDoc, Port, BlockNode, ConstantNode, LibraryBlock, PortDirection, Position, Endpoint,
}
use veristc.Chart.Pins.{Library}
use veristc.Chart.Validity.{block_ids, constant_ids, names, resolves, NoDangling, UniqueIds}
use veristc.Editor.Fresh.{contains-unique_id}
use veristc.Editor.Actions.{
  PortSeed, DropPayload, taken_ids, new_block, add_block, drop_block, new_constant, add_constant,
  port_names, port_name_for, new_port, add_port,
}

-- A new name may be put anywhere.
Nodup-insert :
    (xs : List String) (a : String) (ys : List String)
    → Nodup (xs ++ ys)
    → contains (xs ++ ys) a ≡ false
    → Nodup (xs ++ a ∷ ys)
Nodup-insert [] a ys n h = (h, n)
Nodup-insert (x ∷ xs) a ys n h = (
  ground (arith, contains-append xs (a ∷ ys) x, contains-append xs ys x, eq_iff x a, eq_iff a x),
  Nodup-insert xs a ys n.1 (ground arith),
)

map-concat :
    {A B : Type 0} (f : A → B) (xs : List A) (x : A) (ys : List B)
    → map f (xs ++ x ∷ []) ++ ys ≡ map f xs ++ f x ∷ ys
map-concat f [] x ys = refl
map-concat f (y ∷ xs) x ys = ap (f y ∷◌) (map-concat f xs x ys)

-- The same behind a prefix that is grouped apart.
Nodup-insert_behind :
    (pre xs : List String) (a : String) (ys : List String)
    → Nodup (pre ++ (xs ++ ys))
    → contains (pre ++ (xs ++ ys)) a ≡ false
    → Nodup (pre ++ (xs ++ a ∷ ys))
Nodup-insert_behind pre xs a ys n h = subst Nodup (append_assoc pre xs (a ∷ ys)) (
    Nodup-insert (pre ++ xs) a ys (subst Nodup (sym (append_assoc pre xs ys)) n)
      (subst (λ l. contains l a ≡ false) (sym (append_assoc pre xs ys)) h))

pub drop_block-cases :
    (library : Library) (payload : DropPayload) (at : Position) (page : PageDoc)
    → (drop_block library payload at page ≡ page)
      ⊎ ((def : LibraryBlock) × (drop_block library payload at page
            ≡ add_block (new_block def at page) page))
unfolding drop_block
drop_block-cases library payload at page =
    elim (Option-cases (or_try (lookup payload.library_id library) (lookup payload.type library))) [
      | inl missing ↦ inl (rw (missing, drop_block))
      | inr (def, found) ↦ inr (def, rw (found, drop_block))
    ]

new_block-fresh :
    (def : LibraryBlock) (at : Position) (page : PageDoc)
    → contains (taken_ids page) (new_block def at page).id ≡ false
unfolding new_block
new_block-fresh def at page = contains-unique_id (taken_ids page) _

add_block-UniqueIds :
    (b : BlockNode) (page : PageDoc)
    → contains (taken_ids page) b.id ≡ false
    → UniqueIds page
    → UniqueIds (add_block b page)
add_block-UniqueIds b page h u =
    subst Nodup (sym (map-concat (λ (b : BlockNode). b.id) page.blocks b (constant_ids page)))
      (Nodup-insert (block_ids page) b.id (constant_ids page) u h)

-- A block dropped on the sheet gets an id that no block and no constant of the page has.
pub drop_block-UniqueIds :
    (library : Library) (payload : DropPayload) (at : Position) (page : PageDoc)
    → UniqueIds page
    → UniqueIds (drop_block library payload at page)
drop_block-UniqueIds library payload at page u = elim (drop_block-cases library payload at page) [
  | inl same ↦ subst UniqueIds (sym same) u
  | inr (def, added) ↦
      subst UniqueIds (sym added)
        (add_block-UniqueIds (new_block def at page) page (new_block-fresh def at page) u)
]

map-last :
    {A : Type 0} (f : A → String) (xs : List A) (x : A)
    → map f (xs ++ x ∷ []) ≡ map f xs ++ f x ∷ []
map-last f [] x = refl
map-last f (y ∷ xs) x = ap (f y ∷◌) (map-last f xs x)

new_constant-fresh : (page : PageDoc) → contains (taken_ids page) (new_constant page).id ≡ false
unfolding new_constant
new_constant-fresh page = contains-unique_id (taken_ids page) "K"

-- A new constant gets an id that no block and no constant of the page has.
pub add_constant-UniqueIds : (page : PageDoc) → UniqueIds page → UniqueIds (add_constant page)
unfolding add_constant
add_constant-UniqueIds page u =
    subst (λ l. Nodup (block_ids page ++ l))
      (sym (map-last (λ (c : ConstantNode). c.id) page.constants (new_constant page)))
      (subst Nodup (append_assoc (block_ids page) (constant_ids page) (_ ∷ []))
        (Nodup-concat (taken_ids page) (new_constant page).id u (new_constant-fresh page)))

port_name_for-fresh :
    (seed : PortSeed) (page : PageDoc)
    → or_else seed.name "" ≡ ""
    → contains (port_names page) (port_name_for seed page) ≡ false
unfolding port_name_for
port_name_for-fresh seed page e = rw e (contains-unique_id (port_names page) "VAR")

-- A port added without a name gets one that no port of the page has, in any direction.
pub add_port-Nodup :
    (direction : PortDirection) (seed : PortSeed) (page : PageDoc)
    → or_else seed.name "" ≡ ""
    → Nodup (port_names page)
    → Nodup (port_names (add_port direction seed page))
unfolding add_port
add_port-Nodup PortDirection.input seed page e n =
    subst Nodup
      (sym (
        map-concat (λ (q : Port). q.name) page.interface.input
          (new_port PortDirection.input seed page) _))
      (Nodup-insert (names page.interface.input) (port_name_for seed page) _ n
        (port_name_for-fresh seed page e))
add_port-Nodup PortDirection.output seed page e n =
    subst (λ l. Nodup (names page.interface.input ++ l))
      (sym (
        map-concat (λ (q : Port). q.name) page.interface.output
          (new_port PortDirection.output seed page) _))
      (Nodup-insert_behind (names page.interface.input) (names page.interface.output)
        (port_name_for seed page) (names page.interface.in_out) n (port_name_for-fresh seed page e))
add_port-Nodup PortDirection.in_out seed page e n =
    subst (λ l. Nodup (names page.interface.input ++ (names page.interface.output ++ l)))
      (sym (
        map-last (λ (q : Port). q.name) page.interface.in_out
          (new_port PortDirection.in_out seed page)))
      (simp append_assoc at (
        Nodup-concat (port_names page) (port_name_for seed page) n
          (port_name_for-fresh seed page e)))

contains-map-concat :
    {A : Type 0} (f : A → String) (xs : List A) (x : A) (a : String)
    → contains (map f xs) a ≡ true
    → contains (map f (xs ++ x ∷ [])) a ≡ true
contains-map-concat f [] x a h = absurd (cc h)
contains-map-concat f (y ∷ xs) x a h = ground (arith, contains-map-concat f xs x a)

add_block-NoDangling :
    (b : BlockNode) (page : PageDoc) → NoDangling page → NoDangling (add_block b page)
add_block-NoDangling b page h =
    All-mono
      (λ c r. (
        ground
            (arith, r.0, contains-map-concat (λ (k : BlockNode). k.id) page.blocks b c.from.block),
        ground (arith, r.1, contains-map-concat (λ (k : BlockNode). k.id) page.blocks b c.to.block),
      ))
      page.connections h

-- A block that is dropped on the sheet leaves no wire hanging.
pub drop_block-NoDangling :
    (library : Library) (payload : DropPayload) (at : Position) (page : PageDoc)
    → NoDangling page
    → NoDangling (drop_block library payload at page)
drop_block-NoDangling library payload at page h = elim (drop_block-cases library payload at page) [
  | inl same ↦ subst NoDangling (sym same) h
  | inr (def, added) ↦
      subst NoDangling (sym added) (add_block-NoDangling (new_block def at page) page h)
]

-- A new constant leaves no wire hanging.
pub add_constant-NoDangling : (page : PageDoc) → NoDangling page → NoDangling (add_constant page)
unfolding add_constant
add_constant-NoDangling page h =
    All-mono
      (λ c r. (
        ground (
          arith,
          r.0,
          contains-map-concat (λ (k : ConstantNode). k.id) page.constants (new_constant page)
              c.from.block,
        ),
        ground (
          arith,
          r.1,
          contains-map-concat (λ (k : ConstantNode). k.id) page.constants (new_constant page)
              c.to.block,
        ),
      ))
      page.connections h

add_port-resolves :
    (direction : PortDirection) (seed : PortSeed) (page : PageDoc) (e : Endpoint)
    → resolves page e ≡ true
    → resolves (add_port direction seed page) e ≡ true
unfolding add_port
add_port-resolves PortDirection.input seed page e h = ground (
  arith,
  contains-map-concat (λ (k : Port). k.name) page.interface.input
      (new_port PortDirection.input seed page) e.port,
)
add_port-resolves PortDirection.output seed page e h = ground (
  arith,
  contains-map-concat (λ (k : Port). k.name) page.interface.output
      (new_port PortDirection.output seed page) e.port,
)
add_port-resolves PortDirection.in_out seed page e h = ground (
  arith,
  contains-map-concat (λ (k : Port). k.name) page.interface.in_out
      (new_port PortDirection.in_out seed page) e.port,
)

-- A new port leaves no wire hanging.
pub add_port-NoDangling :
    (direction : PortDirection) (seed : PortSeed) (page : PageDoc)
    → NoDangling page
    → NoDangling (add_port direction seed page)
unfolding add_port
add_port-NoDangling direction seed page h =
    All-mono
      (λ c r. (
        add_port-resolves direction seed page c.from r.0,
        add_port-resolves direction seed page c.to r.1,
      ))
      page.connections h
