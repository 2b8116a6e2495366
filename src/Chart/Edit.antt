-- ===== src/Chart/Edit.antt =====
-- Editing the document: deletion, and the questions about wires (components/graph/types.ts).
use veristc.Prelude.{
  ℕ, String, Option, none, some, ◌==◌, if◌then◌else◌, List, [], Bool, true, false, not, ◌&&◌, ◌||◌,
  filter, any, length, erase_idx,
}
use veristc.Chart.Types.{
  PageDoc, Port, BlockNode, ConstantNode, Endpoint, Connection, PortDirection, Selection, PageType,
  ports, interface_id,
}

unfoldable pub empty_page : String → String → ℕ → String → PageDoc
empty_page id name index sheet = record {
  version = "1.1";
  type = PageType.fc;
  name = name;
  page = record { id = id; label = some id; index = some index; sheet = some sheet };
  interface = record { input = []; output = []; in_out = [] };
  constants = [];
  blocks = [];
  connections = [];
}

abbrev pub same_endpoint : Endpoint → Endpoint → Bool
same_endpoint a b = a.block == b.block && a.port == b.port

-- The closure `gone` of `deleteSelection`: does this wire end fall with the element?
unfoldable pub gone : Selection → Endpoint → Bool
gone (Selection.block id) e = e.block == id
gone (Selection.constant id) e = e.block == id
gone (Selection.wire i) e = false
gone (Selection.port direction name) e = e.block == interface_id && e.port == name

abbrev pub same_port_direction : PortDirection → PortDirection → Bool
same_port_direction PortDirection.input PortDirection.input = true
same_port_direction PortDirection.output PortDirection.output = true
same_port_direction PortDirection.in_out PortDirection.in_out = true
same_port_direction _ _ = false

-- The closure `dropPort`.
unfoldable pub drop_port : Selection → PageDoc → PortDirection → List Port
drop_port (Selection.port d name) page direction =
    if same_port_direction d direction
    then filter (λ port. not (port.name == name)) (ports page.interface direction)
    else ports page.interface direction
drop_port (Selection.block id) page direction = ports page.interface direction
drop_port (Selection.constant id) page direction = ports page.interface direction
drop_port (Selection.wire i) page direction = ports page.interface direction

unfoldable pub drop_blocks : Selection → List BlockNode → List BlockNode
drop_blocks (Selection.block id) bs = filter (λ b. not (b.id == id)) bs
drop_blocks (Selection.constant id) bs = bs
drop_blocks (Selection.port d name) bs = bs
drop_blocks (Selection.wire i) bs = bs

unfoldable pub drop_constants : Selection → List ConstantNode → List ConstantNode
drop_constants (Selection.block id) cs = cs
drop_constants (Selection.constant id) cs = filter (λ c. not (c.id == id)) cs
drop_constants (Selection.port d name) cs = cs
drop_constants (Selection.wire i) cs = cs

unfoldable pub drop_wires : Selection → List Connection → List Connection
unfolding gone
drop_wires (Selection.wire i) ws = erase_idx ws i
drop_wires (Selection.block id) ws =
    filter (λ c. not (gone (Selection.block id) c.from) && not (gone (Selection.block id) c.to)) ws
drop_wires (Selection.constant id) ws =
    filter
      (λ c. not (gone (Selection.constant id) c.from) && not (gone (Selection.constant id) c.to)) ws
drop_wires (Selection.port d name) ws =
    filter
      (λ c. not (gone (Selection.port d name) c.from) && not (gone (Selection.port d name) c.to)) ws

-- Deleting an element also drops every wire that ended on it.
unfoldable pub delete_selection : PageDoc → Option Selection → PageDoc
unfolding drop_port drop_blocks drop_constants drop_wires
delete_selection page none = page
delete_selection page (some sel) = record page {
  blocks = drop_blocks sel page.blocks;
  constants = drop_constants sel page.constants;
  interface = record {
    input = drop_port sel page PortDirection.input;
    output = drop_port sel page PortDirection.output;
    in_out = drop_port sel page PortDirection.in_out;
  };
  connections = drop_wires sel page.connections;
}

unfoldable pub wires_on : PageDoc → Endpoint → ℕ
wires_on page e =
    length (filter (λ c. same_endpoint c.from e || same_endpoint c.to e) page.connections)

-- An input pin already driven cannot take a second source.
unfoldable pub driver_on : PageDoc → Endpoint → Bool
driver_on page e = any (λ c. same_endpoint c.to e) page.connections

unfoldable pub same_connection : Connection → Endpoint → Endpoint → Bool
same_connection a from to = same_endpoint a.from from && same_endpoint a.to to
