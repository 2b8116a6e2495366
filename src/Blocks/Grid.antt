-- ===== src/Blocks/Grid.antt =====
-- The stimulus grid of the simulation tab (`SimulateTab`, components/library/BlockEditor.tsx): the
-- values that the engineer presets for each cycle, and the forces and records that a run sends for
-- them. `String(value)` of the language is the argument `shown`.
use Prim.Native.Char.{Char, code}
use veristc.Prelude.{
  ℕ, zero, suc, ◌-◌, String, ◌==◌, if◌then◌else◌, Option, none, some, or_else, List, [], ◌∷◌, ◌++◌,
  Bool, true, ◌&&◌, ◌||◌, leb, nat_beq, lookup, insert,
}
use veristc.Chart.Types.{Scalar}
use veristc.Lang.Chars.{char_or, map_chars}
use veristc.Sim.Values.{includes}
use veristc.Sim.Stimulus.{ScriptEntry, Payload}
use veristc.Blocks.Types.{BlockPort}
use veristc.Blocks.Symbols.{PortSymbol}

abbrev capitals : String
capitals = "ABCDEFGHIJKLMNOPQRSTUVWXYZ"

-- `toUpperCase` of one character, told apart by a comparison with ASCII letters other than I and S.
unfoldable pub upper : Char → Char
upper c = if leb b'a' (code c) && leb (code c) b'z' then char_or capitals (code c - b'a') c else c

unfoldable pub bool_token : String → String
unfolding upper map_chars
bool_token value = if value == "1" || map_chars upper value == "TRUE" then "TRUE" else "FALSE"

unfoldable pub is_bool : String → Bool
is_bool type = includes type "BOOL"

-- `Record<number, Record<string, string>>`
abbrev pub Row : Type 0
Row = List (String × String)

abbrev pub Grid : Type 0
Grid = List (ℕ × Row)

-- `grid[cycle]`
abbrev pub row_at : ℕ → Grid → Option Row
row_at cycle [] = none
row_at cycle ((at, row) ∷ grid) = if nat_beq at cycle then some row else row_at cycle grid

-- `grid[cycle]?.[port]`
unfoldable pub cell_at : Grid → ℕ → String → Option String
cell_at grid cycle port = elim (row_at cycle grid) [ none ↦ none | some row ↦ lookup port row ]

unfoldable pub default_cell : (Scalar → String) → BlockPort → String
default_cell shown p = elim p.default_value [
  | none ↦ if p.data_type == "BOOL" then "FALSE" else "0"
  | some value ↦ shown value
]

-- One row of `buildGrid`: the cells there were, and the defaults of the others.
unfoldable pub build_row : (Scalar → String) → Grid → ℕ → List BlockPort → Row → Row
unfolding cell_at default_cell
build_row shown prev cycle [] row = row
build_row shown prev cycle (p ∷ ps) row =
    build_row shown prev cycle ps
      (insert p.name (or_else (cell_at prev cycle p.name) (default_cell shown p)) row)

-- The loop of `buildGrid` over so many cycles from one on.
unfoldable pub build_rows : (Scalar → String) → List BlockPort → Grid → ℕ → ℕ → Grid
unfolding build_row
build_rows shown inputs prev zero cycle = []
build_rows shown inputs prev (suc n) cycle =
    (cycle, build_row shown prev cycle inputs []) ∷ build_rows shown inputs prev n (suc cycle)

-- `buildGrid`; no previous grid is the empty one.
unfoldable pub build_grid : (Scalar → String) → List BlockPort → ℕ → Grid → Grid
unfolding build_rows
build_grid shown inputs n prev = build_rows shown inputs prev n 1

-- `{ ...grid, [cycle]: row }`
abbrev pub put_row : ℕ → Row → Grid → Grid
put_row cycle row [] = (cycle, row) ∷ []
put_row cycle row ((at, old) ∷ grid) =
    if nat_beq at cycle then (at, row) ∷ grid else (at, old) ∷ put_row cycle row grid

-- The grid after `setCell`.
unfoldable pub put_cell : ℕ → String → String → Grid → Grid
put_cell cycle port value grid =
    put_row cycle (insert port value (or_else (row_at cycle grid) [])) grid

unfoldable pub token_for : String → Option String → String
unfolding is_bool bool_token
token_for type raw = if is_bool type then bool_token (or_else raw "FALSE") else or_else raw "0"

-- The value that the grid presets for an input in a cycle.
unfoldable pub token_at : Grid → PortSymbol → ℕ → String
unfolding token_for cell_at
token_at grid p cycle = token_for p.type (cell_at grid cycle p.port)

-- The first loop of `buildStimulus`: is the value of so many cycles from one on the first one?
unfoldable pub is_constant : (ℕ → String) → String → ℕ → ℕ → Bool
is_constant token first zero cycle = true
is_constant token first (suc n) cycle =
    token cycle == first && is_constant token first n (suc cycle)

-- The second loop: a record at each cycle whose value is another than the one before.
unfoldable pub changes : (ℕ → String) → String → String → ℕ → ℕ → List ScriptEntry
changes token symbol prev zero cycle = []
changes token symbol prev (suc n) cycle =
    let here = token cycle in
    let rest = changes token symbol here n (suc cycle) in
    if here == prev then rest else record { cycle = cycle; name = symbol; value = here } ∷ rest

-- `buildStimulus` from the cells' tokens: an input that stays is a force, another one is its records.
unfoldable pub stimulus_of : (PortSymbol → ℕ → String) → ℕ → List PortSymbol → Payload
unfolding is_constant changes
stimulus_of token upto [] = record { forces = []; script = [] }
stimulus_of token upto (p ∷ ps) =
    let rest = stimulus_of token upto ps in
    let first = token p 1 in
    if is_constant (token p) first (upto - 1) 2
    then record rest { forces = record { name = p.symbol; value = first } ∷ rest.forces }
    else record rest {
      script =
          record { cycle = 1; name = p.symbol; value = first }
            ∷ changes (token p) p.symbol first (upto - 1) 2
          ++ rest.script;
    }

unfoldable pub build_stimulus : Grid → ℕ → List PortSymbol → Payload
unfolding token_at stimulus_of
build_stimulus grid upto inputs = stimulus_of (token_at grid) upto inputs
