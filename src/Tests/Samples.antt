-- ===== src/Tests/Samples.antt =====
-- A small page, a library and a simulation run.
use veristc.Prelude.{ℤ, pos, String, true, false, none, some, List, [], ◌∷◌}
use veristc.Chart.Types.{
  Position, Number, Scalar, Port, ConstantNode, BlockNode, Endpoint, Connection, PageDoc, PageType,
  PinSpec, LibraryBlock, PinPoint, PinDirection, NodeKind, Finding, Severity, interface_id,
}
use veristc.Chart.Pins.{Library}
use veristc.Sim.Types.{SymbolSeries, PinRow, PinRowKind, SimRun, ForceRow, ScriptRow}
use veristc.Sim.Values.{Printing}

abbrev pub spot : ℤ → ℤ → Position
spot x y = record { x = x; y = y }

abbrev pub end_at : String → String → Endpoint
end_at block port = record { block = block; port = port }

abbrev pub wire_of : Endpoint → Endpoint → Connection
wire_of a b = record { from = a; to = b }

abbrev pub a_port : String → Port
a_port name = record {
  name = name;
  type = "REAL";
  scope = none;
  bind = none;
  unit = none;
  position = none;
}

abbrev pub a_block : String → BlockNode
a_block id = record {
  id = id;
  type = "ADD";
  library_id = some "add";
  position = spot (pos 200) (pos 100);
  parameters = none;
}

abbrev pub a_constant : String → ConstantNode
a_constant id = record {
  id = id;
  type = "REAL";
  value = Scalar.text "1";
  position = spot (pos 50) (pos 100);
}

abbrev pub one : Number
one = record { mantissa = pos 1; exponent = pos 0 }

-- A constant, an input and an output at the block `add1`, wired by the wires that are given.
abbrev pub page_with : List Connection → PageDoc
page_with wires = record {
  version = "1.1";
  type = PageType.fc;
  name = "MAIN";
  page = record { id = "p1"; label = none; index = some 0; sheet = some "A3" };
  interface = record { input = a_port "X" ∷ []; output = a_port "Y" ∷ []; in_out = [] };
  constants = a_constant "k1" ∷ [];
  blocks = a_block "add1" ∷ [];
  connections = wires;
}

abbrev pub pin_a : Endpoint
pin_a = end_at "add1" "A"

abbrev pub from_constant : Connection
from_constant = wire_of (end_at "k1" "OUT") pin_a

abbrev pub from_port : Connection
from_port = wire_of (end_at interface_id "X") (end_at "add1" "B")

abbrev pub to_port : Connection
to_port = wire_of (end_at "add1" "Q") (end_at interface_id "Y")

-- The page with one wire, and with three.
abbrev pub small : PageDoc
small = page_with (from_constant ∷ [])

abbrev pub wired : PageDoc
wired = page_with (from_constant ∷ from_port ∷ to_port ∷ [])

abbrev pub a_spec : String → PinSpec
a_spec name = record {
  name = some name;
  data_type = some "REAL";
  type = none;
  default_value = none;
}

abbrev pub adder : LibraryBlock
adder = record {
  id = "add";
  name = "Adder";
  type = none;
  category = "math";
  version = "1";
  description = "";
  block_kind = none;
  time_based = none;
  st_template = some "FUNCTION ADD : REAL";
  icon_svg = none;
  tags = none;
  sha256 = none;
  author = none;
  created_at = none;
  updated_at = none;
  inputs = a_spec "A" ∷ a_spec "B" ∷ [];
  outputs = a_spec "Q" ∷ [];
  parameters = [];
}

abbrev pub library : Library
library = ("add", adder) ∷ []

abbrev pub a_pin : String → String → PinDirection → ℤ → PinPoint
a_pin block port direction x = record {
  block = block;
  port = port;
  x = x;
  y = pos 100;
  kind = NodeKind.block;
  type = "REAL";
  direction = direction;
}

abbrev pub series_a : SymbolSeries
series_a = record {
  name = "add1_q";
  addr = 0;
  type = "REAL";
  size = 4;
  channel = none;
  values = some one ∷ [];
  raw = [];
  forced = true ∷ [];
}

abbrev pub row_a : PinRow
row_a = record {
  page = "p1";
  element = "add1";
  port = "Q";
  direction = PinDirection.output;
  type = "REAL";
  block_kind = none;
  kind = PinRowKind.symbol;
  symbol = some "add1_q";
  literal = none;
}

abbrev pub a_run : SimRun
a_run = record {
  ok = true;
  stage = none;
  errors = none;
  warnings = none;
  diagnostics = none;
  cycles = some 1;
  cycle_ms = some 10;
  runs = none;
  done = none;
  timeline = some [];
  symbols = some (series_a ∷ []);
  pins = some (row_a ∷ []);
  plant = none;
  station = none;
}

abbrev pub printing : Printing
printing = record { precision6 = λ _. "1.00000"; plain = λ _. "1" }

abbrev pub a_force : ForceRow
a_force = record { id = "force1"; name = " add1_q"; value = "2 "; on = true }

abbrev pub a_record : ScriptRow
a_record = record { id = "script2"; cycle = 1; name = "x"; value = "3"; on = false }

abbrev pub a_finding : Finding
a_finding = record {
  severity = Severity.error;
  code = "E1";
  message = "no driver";
  page = "";
  block = "add1";
  port = "B";
}
