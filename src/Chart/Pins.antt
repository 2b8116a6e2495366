-- ===== src/Chart/Pins.antt =====
-- The pins of a page and which of them a wire may join (components/graph/types.ts).
use Prim.Native.Nat.{max}
use mathlib.Core.List.{flat_map}
use Prim.Native.String
use veristc.Prelude.{
  ℕ, suc, ℤ, pos, ◌+ℤ◌, ◌+◌, ◌*◌, ◌/◌, String, Option, none, some, ◌==◌, if◌then◌else◌, or_else,
  or_try, List, [], ◌∷◌, ◌++◌, map, length, lookup, is_nil, Bool, true, false, not, ◌&&◌,
}
use veristc.Chart.Types.{
  PageDoc, Port, BlockNode, ConstantNode, LibraryBlock, LibraryPin, PinSpec, PinPoint, NodeKind,
  PinDirection, PortDirection, Position, interface_id,
}
use veristc.Chart.Geometry.{
  node_w, head_h, row_h, const_w, const_h, port_w, port_h, port_position_of,
}

pub record Pins : Type 0 where
  pub inputs : List LibraryPin
  pub outputs : List LibraryPin

abbrev pub Library : Type 0
Library = List (String × LibraryBlock)

-- The arrow `map` of `pinsOf`, at one row: `String(undefined)` is "undefined".
abbrev pub pin_of_spec : PinSpec → LibraryPin
pin_of_spec r = record {
  name = or_else r.name "undefined";
  type = or_else (or_try r.data_type r.type) "REAL";
  default_value = r.default_value;
}

-- `library[block.library_id || block.type] || library[block.type]`; an empty id counts as missing.
unfoldable pub definition_of : BlockNode → Library → Option LibraryBlock
definition_of block library =
    let id = or_else block.library_id "" in
    or_try (lookup (if id == "" then block.type else id) library) (lookup block.type library)

unfoldable pub pins_of : BlockNode → Library → Pins
unfolding definition_of
pins_of block library = elim (definition_of block library) [
  | none ↦ record { inputs = []; outputs = [] }
  | some d ↦ record { inputs = map pin_of_spec d.inputs; outputs = map pin_of_spec d.outputs }
]

unfoldable pub block_height : Pins → ℕ
block_height pins = head_h + max (max 1 (length pins.inputs)) (length pins.outputs) * row_h + 8

-- The pins of one side of a block, the first of them in row `i`.
unfoldable pub block_side : BlockNode → ℤ → PinDirection → ℕ → List LibraryPin → List PinPoint
block_side b x direction i [] = []
block_side b x direction i (pin ∷ rest) =
    record {
      block = b.id;
      port = pin.name;
      x = x;
      y = b.position.y +ℤ pos (head_h + i * row_h + row_h / 2);
      kind = NodeKind.block;
      type = pin.type;
      direction = direction;
    }
    ∷ block_side b x direction (suc i) rest

-- A block that the library does not know, or that has no pins, still shows one.
unfoldable pub placeholder_pin : BlockNode → Pins → PinPoint
unfolding block_height
placeholder_pin b pins = record {
  block = b.id;
  port = "IN";
  x = b.position.x;
  y = b.position.y +ℤ pos (block_height pins / 2);
  kind = NodeKind.block;
  type = "REAL";
  direction = PinDirection.input;
}

unfoldable pub block_pins : Library → BlockNode → List PinPoint
unfolding pins_of block_side placeholder_pin
block_pins library b =
    let pins = pins_of b library in
    block_side b b.position.x PinDirection.input 0 pins.inputs
    ++ (block_side b (b.position.x +ℤ pos node_w) PinDirection.output 0 pins.outputs
        ++ (if is_nil pins.inputs && is_nil pins.outputs then placeholder_pin b pins ∷ [] else []))

unfoldable pub constant_pin : ConstantNode → PinPoint
constant_pin c = record {
  block = c.id;
  port = "OUT";
  x = c.position.x +ℤ pos const_w;
  y = c.position.y +ℤ pos (const_h / 2);
  kind = NodeKind.constant;
  type = c.type;
  direction = PinDirection.output;
}

-- The pin by which a port feeds the page, on its right, and the one by which the page writes it.
unfoldable pub port_source : Port → Position → PinPoint
port_source port at = record {
  block = interface_id;
  port = port.name;
  x = at.x +ℤ pos port_w;
  y = at.y +ℤ pos (port_h / 2);
  kind = NodeKind.port;
  type = port.type;
  direction = PinDirection.output;
}

unfoldable pub port_sink : Port → Position → PinPoint
port_sink port at = record {
  block = interface_id;
  port = port.name;
  x = at.x;
  y = at.y +ℤ pos (port_h / 2);
  kind = NodeKind.port;
  type = port.type;
  direction = PinDirection.input;
}

unfoldable pub port_pins : PortDirection → Port → Position → List PinPoint
unfolding port_source port_sink
port_pins PortDirection.input port at = port_source port at ∷ []
port_pins PortDirection.output port at = port_sink port at ∷ []
port_pins PortDirection.in_out port at = port_source port at ∷ port_sink port at ∷ []

-- The ports of one direction, the first of them in row `i`.
unfoldable pub interface_rows : PageDoc → PortDirection → ℕ → List Port → List PinPoint
unfolding port_pins
interface_rows page direction i [] = []
interface_rows page direction i (port ∷ rest) =
    port_pins direction port (port_position_of page direction i port)
    ++ interface_rows page direction (suc i) rest

unfoldable pub pin_map : PageDoc → Library → List PinPoint
unfolding block_pins constant_pin interface_rows
pin_map page library =
    flat_map (block_pins library) page.blocks
    ++ (map constant_pin page.constants
        ++ (interface_rows page PortDirection.input 0 page.interface.input
            ++ (interface_rows page PortDirection.output 0 page.interface.output
                ++ interface_rows page PortDirection.in_out 0 page.interface.in_out)))

-- `${endpoint.block}.${endpoint.port}`
unfoldable pub pin_key : String → String → String
pin_key block port = String.◌++◌ block (String.◌++◌ "." port)

abbrev pub same_direction : PinDirection → PinDirection → Bool
same_direction PinDirection.input PinDirection.input = true
same_direction PinDirection.output PinDirection.output = true
same_direction _ _ = false

unfoldable pub connectable : PinPoint → PinPoint → Bool
connectable a b =
    if a.block == b.block && a.port == b.port
    then false
    else if pin_key a.block a.port == pin_key b.block b.port
    then false
    else not (same_direction a.direction b.direction)

unfoldable pub other_side : PinPoint → PinPoint → PinPoint × PinPoint
other_side a b = elim a.direction [ PinDirection.output ↦ (a, b) | PinDirection.input ↦ (b, a) ]
