-- ===== src/Editor/Actions.antt =====
-- What the actions of the graph page do to the open document (pages/GraphEditorPage.tsx).
use veristc.Prelude.{
  ◌+◌, ◌*◌, pos, ◌-ℤ◌, String, ◌==◌, if◌then◌else◌, Option, none, some, or_else, or_try, List, [],
  ◌∷◌, ◌++◌, length, any, lookup, Bool,
}
use veristc.Chart.Types.{
  PageDoc, Port, BlockNode, ConstantNode, LibraryBlock, PortDirection, Position, Scalar, Scope,
  Binding, ports, set_ports,
}
use veristc.Chart.Geometry.{sheet_of}
use veristc.Chart.Pins.{Library}
use veristc.Chart.Validity.{block_ids, constant_ids, names}
use veristc.Editor.Names.{unique_id, st_type_of}

pub record PortSeed : Type 0 where
  pub name : Option String
  pub type : Option String
  pub scope : Option Scope
  pub bind : Option Binding
  pub unit : Option String

pub record DropPayload : Type 0 where
  pub library_id : String
  pub type : String

-- The ids that `dropBlock` and `addConstant` avoid.
abbrev pub taken_ids : PageDoc → List String
taken_ids page = block_ids page ++ constant_ids page

-- The block that `dropBlock` puts on the sheet.
unfoldable pub new_block : LibraryBlock → Position → PageDoc → BlockNode
new_block def at current = record {
  id = unique_id (taken_ids current) (st_type_of def);
  type = st_type_of def;
  library_id = some def.id;
  position = at;
  parameters = some [];
}

abbrev pub add_block : BlockNode → PageDoc → PageDoc
add_block block page = record page { blocks = page.blocks ++ block ∷ [] }

-- `dropBlock`: nothing happens if the library does not know the payload.
unfoldable pub drop_block : Library → DropPayload → Position → PageDoc → PageDoc
unfolding new_block
drop_block library payload at page =
    elim (or_try (lookup payload.library_id library) (lookup payload.type library)) [
      | none ↦ page
      | some def ↦ add_block (new_block def at page) page
    ]

abbrev pub zero_value : Scalar
zero_value = Scalar.number (record { mantissa = pos 0; exponent = pos 0 })

unfoldable pub new_constant : PageDoc → ConstantNode
new_constant current = record {
  id = unique_id (taken_ids current) "K";
  type = "REAL";
  value = zero_value;
  position = record { x = pos 320; y = pos (140 + length current.constants * 60) };
}

unfoldable pub add_constant : PageDoc → PageDoc
unfolding new_constant
add_constant current = record current { constants = current.constants ++ new_constant current ∷ [] }

-- The names of the ports of a page, in the order in which `addPort` lists them.
abbrev pub port_names : PageDoc → List String
port_names page =
    names page.interface.input ++ (names page.interface.output ++ names page.interface.in_out)

-- `seed.name ?? ""`, and a new name where that is empty.
unfoldable pub port_name_for : PortSeed → PageDoc → String
port_name_for seed current =
    let given = or_else seed.name "" in
    if given == "" then unique_id (port_names current) "VAR" else given

abbrev pub new_port_position : PageDoc → PortDirection → Position
new_port_position current direction =
    let index = length (ports current.interface direction) in
    elim direction [
      | PortDirection.output ↦ record {
        x = (sheet_of current).w -ℤ pos 24 -ℤ pos 40 -ℤ pos 150;
        y = pos (120 + index * 40);
      }
      | _ ↦ record { x = pos 64; y = pos (120 + index * 40) }
    ]

unfoldable pub new_port : PortDirection → PortSeed → PageDoc → Port
unfolding port_name_for
new_port direction seed current = record {
  name = port_name_for seed current;
  type = or_else seed.type "REAL";
  scope = some (or_else seed.scope Scope.external);
  bind = seed.bind;
  unit = some (or_else seed.unit "");
  position = some (new_port_position current direction);
}

unfoldable pub add_port : PortDirection → PortSeed → PageDoc → PageDoc
unfolding new_port
add_port direction seed current = record current {
  interface =
      set_ports current.interface direction
        (ports current.interface direction ++ new_port direction seed current ∷ []);
}

abbrev has_name : String → List Port → Bool
has_name name rows = any (λ port. port.name == name) rows

-- `portDirectionOnPage`: the first direction, in this order, in which the name is declared.
unfoldable pub port_direction_on_page : PageDoc → String → Option PortDirection
port_direction_on_page page name =
    if has_name name page.interface.input
    then some PortDirection.input
    else if has_name name page.interface.in_out
    then some PortDirection.in_out
    else if has_name name page.interface.output
    then some PortDirection.output
    else none
