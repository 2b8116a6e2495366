-- ===== src/Blocks/Truth.antt =====
-- The truth table of the simulation tab (`handleRunTruth`, components/library/BlockEditor.tsx): all
-- combinations of the Boolean inputs in one run, a cycle each.
use veristc.Prelude.{
  ℕ, zero, suc, ◌/◌, ◌%◌, ◌^◌, String, ◌==◌, if◌then◌else◌, Option, none, some, or_else, List, [],
  ◌∷◌, ◌++◌, map, filter, length, Bool, false, not, nat_beq, lookup, insert,
}
use veristc.Sim.Stimulus.{ScriptEntry, Payload}
use veristc.Blocks.Symbols.{PortSymbol}
use veristc.Blocks.Grid.{Row, is_bool}

unfoldable pub bool_inputs : List PortSymbol → List PortSymbol
unfolding is_bool
bool_inputs inputs = filter (λ (p : PortSymbol). is_bool p.type) inputs

unfoldable pub fixed_inputs : List PortSymbol → List PortSymbol
unfolding is_bool
fixed_inputs inputs = filter (λ (p : PortSymbol). not (is_bool p.type)) inputs

-- `1 << n` on 32 bits, where it is not negative; it is for the last of 32 shifts, and a loop up to it
-- runs no round.
unfoldable pub combos : ℕ → ℕ
combos n = if nat_beq (n % 32) 31 then 0 else 2 ^ (n % 32)

-- `row & (1 << k)`, for a row below `2 ^ 31`
unfoldable pub bit : ℕ → ℕ → Bool
bit row k = nat_beq (row / 2 ^ (k % 32) % 2) 1

unfoldable pub row_value : ℕ → ℕ → String
unfolding bit
row_value row k = if bit row k then "TRUE" else "FALSE"

-- What the loops carry: the records so far, and the last value of each symbol.
pub record Table : Type 0 where
  pub script : List ScriptEntry
  pub held : Row

abbrev pub is_value : Option String → String → Bool
is_value none value = false
is_value (some old) value = old == value

-- A symbol that has no value yet, or another one, gets a record.
unfoldable pub truth_step : ℕ → String → String → Table → Table
truth_step cycle symbol value t = if is_value (lookup symbol t.held) value then t else record {
  script = t.script ++ record { cycle = cycle; name = symbol; value = value } ∷ [];
  held = insert symbol value t.held;
}

-- One row: `n` inputs are left, and the first of them takes the highest of `n` bits.
unfoldable pub truth_row : ℕ → List PortSymbol → Table → Table
unfolding row_value truth_step
truth_row row [] t = t
truth_row row (p ∷ ps) t =
    truth_row row ps (truth_step (suc row) p.symbol (row_value row (length ps)) t)

unfoldable pub truth_rows : ℕ → ℕ → List PortSymbol → Table → Table
unfolding truth_row
truth_rows zero row ps t = t
truth_rows (suc n) row ps t = truth_rows n (suc row) ps (truth_row row ps t)

-- The records of all rows.
unfoldable pub truth_script : List PortSymbol → List ScriptEntry
unfolding combos truth_rows
truth_script ps = (truth_rows (combos (length ps)) 0 ps (record { script = []; held = [] })).script

-- The stimulus of the run: the other inputs are held at their values.
unfoldable pub truth_stimulus : Row → List PortSymbol → Payload
unfolding bool_inputs fixed_inputs truth_script
truth_stimulus input_values inputs = record {
  forces =
      map
        (λ (p : PortSymbol). record {
          name = p.symbol;
          value = or_else (lookup p.port input_values) "0";
        })
        (fixed_inputs inputs);
  script = truth_script (bool_inputs inputs);
}
