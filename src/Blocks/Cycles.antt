-- ===== src/Blocks/Cycles.antt =====
-- The state of the simulation tab, and what its buttons do to it (`SimulateTab`,
-- components/library/BlockEditor.tsx). `String(value)` of the language is the argument `shown`, and
-- the translation of `editor.simulate.recordsExceed` the argument `too_many`.
use veristc.Prelude.{
  ℕ, suc, ltb, String, if◌then◌else◌, Option, none, some, List, [], ◌∷◌, length, Bool, true, false,
  ◌||◌, insert,
}
use Prim.Native.Nat.{max}
use veristc.Chart.Types.{Scalar}
use veristc.Sim.Types.{SymbolSeries}
use veristc.Sim.Stimulus.{Payload}
use veristc.Blocks.Types.{BlockPort}
use veristc.Blocks.Symbols.{PortSymbol, PortMap}
use veristc.Blocks.Grid.{Row, Grid, build_grid, build_stimulus, put_cell, default_cell}
use veristc.Blocks.Truth.{combos, bool_inputs, truth_stimulus}

-- The answer to a run of one block.
pub record BlockSimRun : Type 0 where
  pub ok : Bool
  pub stage : Option String
  pub errors : Option (List String)
  pub cycles : Option ℕ
  pub cycle_ms : Option ℕ
  pub symbols : Option (List SymbolSeries)
  pub ports : Option PortMap
  pub program : Option String

pub record SimTab : Type 0 where
  pub cycles : ℕ
  pub grid : Grid
  pub step : ℕ
  pub run : Option BlockSimRun
  pub running : Bool
  pub input_values : Row

-- What is posted, less the block's id.
pub record SimRequest : Type 0 where
  pub cycles : ℕ
  pub stimulus : Payload

-- `SCRIPT_MAX`
abbrev pub script_max : ℕ
script_max = 64

-- `{ ok: false, stage, errors: [message] }`
abbrev pub failed_run : String → String → BlockSimRun
failed_run stage message = record {
  ok = false;
  stage = some stage;
  errors = some (message ∷ []);
  cycles = none;
  cycle_ms = none;
  symbols = none;
  ports = none;
  program = none;
}

-- `runCycles` up to its request, if it makes one.
unfoldable pub run_cycles : String → List PortSymbol → ℕ → SimTab → SimTab × Option SimRequest
unfolding build_stimulus
run_cycles too_many inputs k tab =
    let stimulus : Payload = build_stimulus tab.grid k inputs in
    if tab.running || (ltb k 1 || ltb tab.cycles k)
    then (tab, none)
    else if ltb script_max (length stimulus.script)
    then (record tab { run = some (failed_run "compose" too_many) }, none)
    else (record tab { running = true }, some (record { cycles = k; stimulus = stimulus }))

-- `runCycles` once its request is answered, or has failed.
unfoldable pub answer_cycles : ℕ → BlockSimRun → SimTab → SimTab
answer_cycles k result tab = record tab {
  run = some result;
  step = if result.ok then k else tab.step;
  running = false;
}

unfoldable pub fail_request : String → SimTab → SimTab
fail_request message tab = record tab { run = some (failed_run "request" message); running = false }

unfoldable pub handle_step : String → List PortSymbol → SimTab → SimTab × Option SimRequest
unfolding run_cycles
handle_step too_many inputs tab = run_cycles too_many inputs (suc tab.step) tab

unfoldable pub handle_run_all : String → List PortSymbol → SimTab → SimTab × Option SimRequest
unfolding run_cycles
handle_run_all too_many inputs tab = run_cycles too_many inputs tab.cycles tab

unfoldable pub set_cell : ℕ → String → String → SimTab → SimTab
unfolding put_cell
set_cell cycle port value tab = record tab {
  grid = put_cell cycle port value tab.grid;
  step = 0;
  run = none;
}

-- The field with the number of cycles, and the effect that adapts the grid to it.
unfoldable pub set_cycles : (Scalar → String) → List BlockPort → ℕ → SimTab → SimTab
unfolding build_grid
set_cycles shown inputs n tab = record tab {
  cycles = max 1 n;
  grid = build_grid shown inputs (max 1 n) tab.grid;
}

-- The initial `inputValues`.
unfoldable pub default_values : (Scalar → String) → List BlockPort → Row → Row
unfolding default_cell
default_values shown [] row = row
default_values shown (p ∷ ps) row =
    default_values shown ps (insert p.name (default_cell shown p) row)

-- `handleRunTruth`: the request, and its answer.
unfoldable pub run_truth : List PortSymbol → SimTab → SimTab × SimRequest
unfolding combos bool_inputs truth_stimulus
run_truth inputs tab = (
  record tab { running = true },
  record {
    cycles = combos (length (bool_inputs inputs));
    stimulus = truth_stimulus tab.input_values inputs;
  },
)

unfoldable pub answer_truth : BlockSimRun → SimTab → SimTab
answer_truth result tab = record tab { run = some result; running = false }

unfoldable pub reset : (Scalar → String) → List BlockPort → SimTab → SimTab
unfolding build_grid default_values
reset shown inputs tab = record tab {
  run = none;
  step = 0;
  grid = build_grid shown inputs tab.cycles [];
  input_values = default_values shown inputs [];
}
