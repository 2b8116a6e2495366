-- ===== src/Editor/Shape.antt =====
-- Edits of a page that leave the names of its elements and its wires as they are: the patches of the
-- inspector (components/graph/Inspector.tsx) and the moves on the sheet (components/graph/Sheet.tsx).
use veristc.Prelude.{
  ℕ, suc, ◌≡◌, refl, ap₂, String, ◌==◌, if◌then◌else◌, none, some, Option, List, [], ◌∷◌, map, true,
  false, Bool, nat_beq,
}
use veristc.Chart.Types.{
  PageDoc, Port, BlockNode, ConstantNode, PortDirection, Position, ports, set_ports,
}
use veristc.Chart.Geometry.{SheetSize}
use veristc.Chart.Validity.{block_ids, constant_ids, names}
use veristc.Editor.Inspector.{patch_block, patch_constant, patch_port}
use veristc.Wiring.Drag.{
  DragKind, DragState, drag_target, place_port, move_port, move_constant, move_block, move_element,
}

-- Two pages with the same names and the same wires.
pub record SameShape (p q : PageDoc) : Type 0 where
  pub blocks : block_ids q ≡ block_ids p
  pub constants : constant_ids q ≡ constant_ids p
  pub inputs : names q.interface.input ≡ names p.interface.input
  pub outputs : names q.interface.output ≡ names p.interface.output
  pub in_outs : names q.interface.in_out ≡ names p.interface.in_out
  pub connections : q.connections ≡ p.connections

-- A change of the items of one key that keeps that key keeps all keys.
map-if :
    {A : Type 0} (key : A → String) (k : String) (change : A → A) (xs : List A)
    → ((x : A) → key (change x) ≡ key x)
    → map key (map (λ x. if key x == k then change x else x) xs) ≡ map key xs
map-if key k change [] h = refl
map-if key k change (x ∷ xs) h = ap₂ ◌∷◌ (chosen (key x == k)) (map-if key k change xs h)
  where
    chosen : (b : Bool) → key (if b then change x else x) ≡ key x
    chosen true = h x
    chosen false = refl

pub patch_block-SameShape :
    (id : String) (next : BlockNode → BlockNode) (page : PageDoc)
    → ((b : BlockNode) → (next b).id ≡ b.id)
    → SameShape page (patch_block id next page)
unfolding patch_block
patch_block-SameShape id next page h = record {
  blocks = map-if (λ (b : BlockNode). b.id) id next page.blocks h;
  constants = refl;
  inputs = refl;
  outputs = refl;
  in_outs = refl;
  connections = refl;
}

pub patch_constant-SameShape :
    (id : String) (next : ConstantNode → ConstantNode) (page : PageDoc)
    → ((c : ConstantNode) → (next c).id ≡ c.id)
    → SameShape page (patch_constant id next page)
unfolding patch_constant
patch_constant-SameShape id next page h = record {
  blocks = refl;
  constants = map-if (λ (c : ConstantNode). c.id) id next page.constants h;
  inputs = refl;
  outputs = refl;
  in_outs = refl;
  connections = refl;
}

-- One list of ports is replaced by another with the same names.
set_ports-SameShape :
    (page : PageDoc) (d : PortDirection) (rows : List Port)
    → names rows ≡ names (ports page.interface d)
    → SameShape page (record page { interface = set_ports page.interface d rows })
set_ports-SameShape page PortDirection.input rows h = record {
  blocks = refl;
  constants = refl;
  inputs = h;
  outputs = refl;
  in_outs = refl;
  connections = refl;
}
set_ports-SameShape page PortDirection.output rows h = record {
  blocks = refl;
  constants = refl;
  inputs = refl;
  outputs = h;
  in_outs = refl;
  connections = refl;
}
set_ports-SameShape page PortDirection.in_out rows h = record {
  blocks = refl;
  constants = refl;
  inputs = refl;
  outputs = refl;
  in_outs = h;
  connections = refl;
}

pub patch_port-SameShape :
    (d : PortDirection) (name : String) (next : Port → Port) (page : PageDoc)
    → ((p : Port) → (next p).name ≡ p.name)
    → SameShape page (patch_port d name next page)
unfolding patch_port
patch_port-SameShape d name next page h =
    set_ports-SameShape page d _
      (map-if (λ (p : Port). p.name) name next (ports page.interface d) h)

names-place_port :
    (i k : ℕ) (next : Position) (rows : List Port) → names (place_port i k next rows) ≡ names rows
unfolding place_port
names-place_port i k next [] = refl
names-place_port i k next (p ∷ rows) =
    ap₂ ◌∷◌ (chosen (nat_beq k i)) (names-place_port i (suc k) next rows)
  where
    chosen : (b : Bool) → (if b then record p { position = some next } else p).name ≡ p.name
    chosen true = refl
    chosen false = refl

move_block-SameShape :
    (id : String) (next : Position) (page : PageDoc) → SameShape page (move_block id next page)
unfolding move_block
move_block-SameShape id next page = record {
  blocks =
      map-if (λ (b : BlockNode). b.id) id (λ b. record b { position = next }) page.blocks
        (λ b. refl);
  constants = refl;
  inputs = refl;
  outputs = refl;
  in_outs = refl;
  connections = refl;
}

move_constant-SameShape :
    (id : String) (next : Position) (page : PageDoc) → SameShape page (move_constant id next page)
unfolding move_constant
move_constant-SameShape id next page = record {
  blocks = refl;
  constants =
      map-if (λ (c : ConstantNode). c.id) id (λ c. record c { position = next }) page.constants
        (λ c. refl);
  inputs = refl;
  outputs = refl;
  in_outs = refl;
  connections = refl;
}

move_port-SameShape :
    (d : PortDirection) (i : ℕ) (next : Position) (page : PageDoc)
    → SameShape page (move_port d i next page)
unfolding move_port
move_port-SameShape d i next page =
    set_ports-SameShape page d (place_port i 0 next (ports page.interface d))
      (names-place_port i 0 next (ports page.interface d))

-- A drag keeps the names of all elements and the wires of the page.
pub move_element-SameShape :
    (sheet : SheetSize) (at : Position) (d : DragState) (page : PageDoc)
    → SameShape page (move_element sheet at d page)
unfolding move_element
move_element-SameShape sheet at d page = moved d.kind d.direction d.index
  where
    moved :
        (kind : DragKind) (direction : Option PortDirection) (index : Option ℕ)
        → (let next = drag_target sheet at d in
            SameShape page (elim kind [
              | DragKind.constant ↦ move_constant d.id next page
              | DragKind.block ↦ move_block d.id next page
              | DragKind.port ↦ elim direction [
                | none ↦ move_block d.id next page
                | some way ↦ elim index [
                  | none ↦ move_block d.id next page
                  | some i ↦ move_port way i next page
                ]
              ]
            ]))
    moved DragKind.constant direction index =
        move_constant-SameShape d.id (drag_target sheet at d) page
    moved DragKind.block direction index = move_block-SameShape d.id (drag_target sheet at d) page
    moved DragKind.port none index = move_block-SameShape d.id (drag_target sheet at d) page
    moved DragKind.port (some way) none = move_block-SameShape d.id (drag_target sheet at d) page
    moved DragKind.port (some way) (some i) =
        move_port-SameShape way i (drag_target sheet at d) page
