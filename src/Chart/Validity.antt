-- ===== src/Chart/Validity.antt =====
-- What a page document has to satisfy: its wires end on elements of the page, and no pin is driven
-- twice. These are descriptions of their own, not code of the program.
use veristc.Prelude.{
  ℕ, ◌≤◌, ◌≡◌, String, ◌==◌, List, ◌++◌, map, Bool, true, ◌&&◌, ◌||◌, contains, All, count_p, Nodup,
}
use veristc.Chart.Types.{PageDoc, Port, BlockNode, ConstantNode, Endpoint, Connection, interface_id}
use veristc.Chart.Edit.{same_endpoint}

abbrev pub block_ids : PageDoc → List String
block_ids page = map (λ (b : BlockNode). b.id) page.blocks

abbrev pub constant_ids : PageDoc → List String
constant_ids page = map (λ (c : ConstantNode). c.id) page.constants

abbrev pub element_ids : PageDoc → List String
element_ids page = block_ids page ++ constant_ids page

abbrev pub names : List Port → List String
names rows = map (λ (p : Port). p.name) rows

-- A wire end names a block or a constant of the page, or one of its ports.
abbrev pub resolves : PageDoc → Endpoint → Bool
resolves page e =
    (contains (block_ids page) e.block || contains (constant_ids page) e.block)
    || (e.block == interface_id
        && ((contains (names page.interface.input) e.port
              || contains (names page.interface.output) e.port)
            || contains (names page.interface.in_out) e.port))

abbrev pub Resolved : PageDoc → Connection → Type 0
Resolved page c = (resolves page c.from ≡ true) × (resolves page c.to ≡ true)

-- No wire hangs in the air.
abbrev pub NoDangling : PageDoc → Type 0
NoDangling page = All (Resolved page) page.connections

-- How many wires end on a pin.
abbrev pub drivers : List Connection → Endpoint → ℕ
drivers ws e = count_p (λ c. same_endpoint c.to e) ws

abbrev pub SingleDriver : PageDoc → Type 0
SingleDriver page = (e : Endpoint) → drivers page.connections e ≤ 1

-- Blocks and constants are told apart by their ids.
abbrev pub UniqueIds : PageDoc → Type 0
UniqueIds page = Nodup (element_ids page)
