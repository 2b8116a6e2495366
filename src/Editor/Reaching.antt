-- ===== src/Editor/Reaching.antt =====
-- The pages that the graph page's edits lead to, in any order and number: the actions of
-- pages/GraphEditorPage.tsx, the drags and wires of components/graph/Sheet.tsx, and the edits of
-- components/graph/Inspector.tsx. Three fields there change a name that wires or other elements may
-- hold on to, and take any text; the steps are those of their edits that keep a page valid: giving a
-- block or a constant that no wire ends on an id that is not in use, and renaming a port to a name that
-- no wire drives.
use veristc.Prelude.{ℕ, ◌≡◌, String, Option, In, true, false, contains, All-In-get, arith}
use veristc.Chart.Types.{
  PageDoc, Port, BlockNode, ConstantNode, PortDirection, Position, PinPoint, PinDirection,
  Selection, ports,
}
use veristc.Chart.Geometry.{SheetSize}
use veristc.Chart.Pins.{Library, pin_map, other_side}
use veristc.Chart.PinLaws.{pin_end, pin_map-Named}
use veristc.Chart.Edit.{empty_page, delete_selection}
use veristc.Chart.Validity.{names, drivers, resolves, element_ids}
use veristc.Wiring.Draft.{add_wire, commit_draft, end_of}
use veristc.Wiring.Drag.{DragState, move_element}
use veristc.Editor.Actions.{DropPayload, PortSeed, drop_block, add_constant, add_port}
use veristc.Editor.Growing.{drop_block-IsValid, add_constant-IsValid, add_port-IsValid}
use veristc.Editor.Inspector.{patch_block, patch_constant, patch_port, rename_port, rename_block}
use veristc.Editor.Shape.{
  patch_block-SameShape, patch_constant-SameShape, patch_port-SameShape, move_element-SameShape,
}
use veristc.Editor.Valid.{IsValid, SameShape-IsValid, delete_selection-IsValid, add_wire-IsValid}
use veristc.Editor.Unwired.{Unwired, rename_block-IsValid, patch_constant-IsValid}
use veristc.Editor.Merging.{port_end, rename_port-IsValid}

-- One edit.
pub data EditStep (library : Library) : PageDoc → PageDoc → Type 0 where
  dropped :
      (page : PageDoc) (payload : DropPayload) (at : Position)
      → EditStep library page (drop_block library payload at page)
  constant_added : (page : PageDoc) → EditStep library page (add_constant page)
  port_added :
      (page : PageDoc) (direction : PortDirection) (seed : PortSeed)
      → EditStep library page (add_port direction seed page)
  wired :
      (page : PageDoc) (from target : PinPoint)
      → In from (pin_map page library)
      → In target (pin_map page library)
      → EditStep library page (commit_draft from target page)
  deleted :
      (page : PageDoc) (selected : Option Selection)
      → EditStep library page (delete_selection page selected)
  dragged :
      (page : PageDoc) (sheet : SheetSize) (at : Position) (drag : DragState)
      → EditStep library page (move_element sheet at drag page)
  block_patched :
      (page : PageDoc) (id : String) (next : BlockNode → BlockNode)
      → ((b : BlockNode) → (next b).id ≡ b.id)
      → EditStep library page (patch_block id next page)
  constant_patched :
      (page : PageDoc) (id : String) (next : ConstantNode → ConstantNode)
      → ((c : ConstantNode) → (next c).id ≡ c.id)
      → EditStep library page (patch_constant id next page)
  port_patched :
      (page : PageDoc) (direction : PortDirection) (name : String) (next : Port → Port)
      → ((p : Port) → (next p).name ≡ p.name)
      → EditStep library page (patch_port direction name next page)
  port_renamed :
      (page : PageDoc) (direction : PortDirection) (old name : String)
      → contains (names (ports page.interface direction)) old ≡ true
      → drivers page.connections (port_end name) ≡ 0
      → EditStep library page (rename_port direction old name page)
  block_renamed :
      (page : PageDoc) (old id : String)
      → contains (element_ids page) id ≡ false
      → Unwired old page.connections
      → EditStep library page (rename_block old id page)
  constant_renamed :
      (page : PageDoc) (old id : String)
      → contains (element_ids page) id ≡ false
      → Unwired old page.connections
      → EditStep library page (patch_constant old (λ c. record c { id = id }) page)

-- A run of edits.
pub data Edits (library : Library) (start : PageDoc) : PageDoc → Type 0 where
  none_yet : Edits library start start
  and_then :
      (page next : PageDoc)
      → Edits library start page
      → EditStep library page next
      → Edits library start next

commit_draft-IsValid :
    (library : Library) (page : PageDoc) (from target : PinPoint)
    → In from (pin_map page library)
    → In target (pin_map page library)
    → IsValid page
    → IsValid (commit_draft from target page)
unfolding commit_draft other_side
commit_draft-IsValid library page from target a b v = placed from.direction
  where
    known : (p : PinPoint) → In p (pin_map page library) → resolves page (end_of p) ≡ true
    known p m =
        All-In-get (λ p. resolves page (pin_end p) ≡ true) p (pin_map page library)
          (pin_map-Named page library) m

    placed :
        (d : PinDirection)
        → (let ends : PinPoint × PinPoint = elim d [
          | PinDirection.output ↦ (from, target)
          | PinDirection.input ↦ (target, from)
        ] in
            IsValid (add_wire (end_of ends.0) (end_of ends.1) page))
    placed PinDirection.output =
        add_wire-IsValid (end_of from) (end_of target) page (known from a) (known target b) v
    placed PinDirection.input =
        add_wire-IsValid (end_of target) (end_of from) page (known target b) (known from a) v

step-IsValid :
    (library : Library) (page next : PageDoc)
    → EditStep library page next
    → IsValid page
    → IsValid next
step-IsValid library page _ (EditStep.dropped _ payload at) v =
    drop_block-IsValid library payload at page v
step-IsValid library page _ (EditStep.constant_added _) v = add_constant-IsValid page v
step-IsValid library page _ (EditStep.port_added _ direction seed) v =
    add_port-IsValid direction seed page v
step-IsValid library page _ (EditStep.wired _ from target a b) v =
    commit_draft-IsValid library page from target a b v
step-IsValid library page _ (EditStep.deleted _ selected) v =
    delete_selection-IsValid page selected v
step-IsValid library page _ (EditStep.dragged _ sheet at drag) v =
    SameShape-IsValid page (move_element sheet at drag page)
      (move_element-SameShape sheet at drag page) v
step-IsValid library page _ (EditStep.block_patched _ id next keeps) v =
    SameShape-IsValid page (patch_block id next page) (patch_block-SameShape id next page keeps) v
step-IsValid library page _ (EditStep.constant_patched _ id next keeps) v =
    SameShape-IsValid page (patch_constant id next page)
      (patch_constant-SameShape id next page keeps) v
step-IsValid library page _ (EditStep.port_patched _ direction name next keeps) v =
    SameShape-IsValid page (patch_port direction name next page)
      (patch_port-SameShape direction name next page keeps) v
step-IsValid library page _ (EditStep.port_renamed _ direction old name has free) v =
    rename_port-IsValid direction old name page has free v
step-IsValid library page _ (EditStep.block_renamed _ old id free unwired) v =
    rename_block-IsValid old id page free unwired v
step-IsValid library page _ (EditStep.constant_renamed _ old id free unwired) v =
    patch_constant-IsValid old id page free unwired v

edits-IsValid :
    (library : Library) (start page : PageDoc)
    → Edits library start page
    → IsValid start
    → IsValid page
edits-IsValid library start _ Edits.none_yet v = v
edits-IsValid library start _ (Edits.and_then page next edits step) v =
    step-IsValid library page next step (edits-IsValid library start page edits v)

-- Every page that a new page becomes by any run of these edits is valid: a block dropped, a constant or
-- a port added, two of its pins wired, an element deleted or dragged, a block, a constant or a port
-- changed but for its id or name, a port renamed to a name that no wire drives, and a block or a
-- constant that no wire ends on given an id that is not in use. Valid: the ids of its blocks and
-- constants are distinct, each of its wires ends on elements of the page, and no pin is driven twice.
pub edited-IsValid :
    (library : Library) (id name : String) (index : ℕ) (sheet : String) (page : PageDoc)
    → Edits library (empty_page id name index sheet) page
    → IsValid page
unfolding empty_page
edited-IsValid library id name index sheet page edits =
    edits-IsValid library (empty_page id name index sheet) page edits
      (record { ids = tt; wires = tt; driven = λ e. omega arith })
