-- ===== src/Chart/Geometry.antt =====
-- Sheets, the fixed sizes of the elements, and where a port stands (components/graph/types.ts).
use veristc.Prelude.{
  ℕ, ℤ, pos, ◌+ℤ◌, ◌-ℤ◌, ◌+◌, ◌*◌, String, Option, none, some, ◌==◌, if◌then◌else◌, or_else,
  get_elem?, List, [], ◌∷◌, lookup,
}
use veristc.Chart.Types.{Position, Port, PageDoc, PortDirection, ports}

pub record SheetSize : Type 0 where
  pub w : ℤ
  pub h : ℤ
  pub label : String

-- `SHEETS[sheet]`
unfoldable pub sheets : String → Option SheetSize
sheets s =
    if s == "A4"
    then some (record { w = pos 1169; h = pos 827; label = "A4 横向" })
    else if s == "A3"
    then some (record { w = pos 1587; h = pos 1123; label = "A3 横向" })
    else if s == "A2"
    then some (record { w = pos 2234; h = pos 1580; label = "A2 横向" })
    else none

abbrev pub sheet_a3 : SheetSize
sheet_a3 = record { w = pos 1587; h = pos 1123; label = "A3 横向" }

abbrev pub node_w : ℕ
node_w = 168

abbrev pub head_h : ℕ
head_h = 26

abbrev pub row_h : ℕ
row_h = 22

abbrev pub const_w : ℕ
const_w = 118

abbrev pub const_h : ℕ
const_h = 34

abbrev pub port_w : ℕ
port_w = 150

abbrev pub port_h : ℕ
port_h = 26

abbrev pub frame : ℕ
frame = 24

abbrev pub port_gap : ℕ
port_gap = 14

-- `SHEETS[page.page.sheet ?? "A3"] ?? SHEETS.A3`
unfoldable pub sheet_of : PageDoc → SheetSize
sheet_of page = or_else (sheets (or_else page.page.sheet "A3")) sheet_a3

-- The column of ports that were never moved.
unfoldable pub default_port_position : String → PortDirection → ℕ → Position
default_port_position sheet PortDirection.output i = record {
  x = (or_else (sheets sheet) sheet_a3).w -ℤ pos frame -ℤ pos 40 -ℤ pos port_w;
  y = pos (frame + 96 + i * (port_h + port_gap));
}
default_port_position sheet PortDirection.in_out i = record {
  x = pos (frame + 40);
  y = pos (frame + 96 + i * (port_h + port_gap)) +ℤ pos 100;
}
default_port_position sheet PortDirection.input i = record {
  x = pos (frame + 40);
  y = pos (frame + 96 + i * (port_h + port_gap)) +ℤ pos 0;
}

-- `portAt`; the source reads past the end as `undefined`.
unfoldable pub port_at : PageDoc → PortDirection → ℕ → Option Port
port_at page direction i = get_elem? (ports page.interface direction) i

-- Where a port is drawn: where it was put, else in its column.
unfoldable pub port_position_of : PageDoc → PortDirection → ℕ → Port → Position
port_position_of page direction i port =
    or_else port.position (default_port_position (or_else page.page.sheet "A3") direction i)

-- `TYPE_COLORS`
abbrev pub type_colors : List (String × String)
type_colors =
    ("BOOL", "#c586c0")
    ∷ ("QBOOL", "#b5cea8")
    ∷ ("BYTE", "#dcdcaa")
    ∷ ("WORD", "#dcdcaa")
    ∷ ("DWORD", "#dcdcaa")
    ∷ ("SINT", "#569cd6")
    ∷ ("INT", "#569cd6")
    ∷ ("DINT", "#4fc1ff")
    ∷ ("LINT", "#4fc1ff")
    ∷ ("REAL", "#4ec9b0")
    ∷ ("LREAL", "#3bc9b0")
    ∷ ("QREAL", "#89d185")
    ∷ ("QINT", "#9cdcfe")
    ∷ ("QDINT", "#9cdcfe")
    ∷ ("TIME", "#ce9178")
    ∷ ("STRING", "#ce9178")
    ∷ []

abbrev pub type_color : String → String
type_color st_type = or_else (lookup st_type type_colors) "#cccccc"
