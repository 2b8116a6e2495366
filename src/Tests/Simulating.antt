-- ===== src/Tests/Simulating.antt =====
-- Runs of the theorems on the simulation tab of the block editor.
use veristc.Prelude.{
  ◌≡◌, ◌≢◌, ◌^◌, length, refl, arith, eq_iff, String, true, false, none, some, List, [], ◌∷◌, inl,
  In,
}
use veristc.Blocks.Types.{BlockPort}
use veristc.Blocks.Symbols.{PortSymbol, symbols_of, port_symbol}
use veristc.Editor.Names.{is_name_char}
use veristc.Blocks.Grid.{Grid, token_at, build_stimulus, token_for, cell_at}
use veristc.Blocks.Held.{held, value_at}
use veristc.Blocks.Replay.{value_at-build_stimulus}
use veristc.Blocks.Truth.{bool_inputs}
use veristc.Blocks.Combinations.{run_truth-held}
use veristc.Blocks.Cycles.{
  BlockSimRun, SimTab, SimRequest, run_cycles, run_truth, answer_cycles, set_cell,
}
use veristc.Blocks.Requests.{answer_cycles-stale}

abbrev an_input : String → String → BlockPort
an_input name data_type = record {
  name = name;
  direction = "input";
  data_type = data_type;
  description = "";
  default_value = none;
}

-- A Boolean input that changes in the second of three cycles, and a real one that stays.
abbrev two_inputs : List BlockPort
two_inputs = an_input "A" "BOOL" ∷ an_input "B" "REAL" ∷ []

abbrev symbol_a : PortSymbol
symbol_a = record { port = "A"; symbol = "A"; type = "BOOL" }

abbrev symbol_b : PortSymbol
symbol_b = record { port = "B"; symbol = "B"; type = "BOOL" }

abbrev three_cycles : Grid
three_cycles =
    (1, ("A", "0") ∷ ("B", "2.5") ∷ [])
    ∷ (2, ("A", "1") ∷ ("B", "2.5") ∷ [])
    ∷ (3, ("A", "true") ∷ ("B", "2.5") ∷ [])
    ∷ []

a_is_input : In symbol_a (symbols_of two_inputs [])
unfolding symbols_of port_symbol is_name_char
a_is_input = inl refl

value_at-build_stimulus_example :
    value_at (build_stimulus three_cycles 3 (symbols_of two_inputs [])) "A" 2
    ≡ some (token_at three_cycles symbol_a 2)
value_at-build_stimulus_example =
    value_at-build_stimulus three_cycles 3 two_inputs symbol_a 2 a_is_input (omega arith)
      (omega arith)

abbrev a_tab : SimTab
a_tab = record {
  cycles = 3;
  grid = three_cycles;
  step = 0;
  run = none;
  running = false;
  input_values = [];
}

abbrev a_request : SimRequest
a_request = record {
  cycles = 2;
  stimulus = build_stimulus three_cycles 2 (symbols_of two_inputs []);
}

asked : (run_cycles "too many" (symbols_of two_inputs []) 2 a_tab).1 ≡ some a_request
unfolding run_cycles build_stimulus token_at token_for cell_at symbols_of port_symbol
asked = refl

-- The third of the four combinations of two inputs sets the first of them.
run_truth-held_example :
    ((run_truth (symbol_a ∷ symbol_b ∷ []) a_tab).1.cycles
      ≡ 2 ^ length (bool_inputs (symbol_a ∷ symbol_b ∷ [])))
    × (held (run_truth (symbol_a ∷ symbol_b ∷ []) a_tab).1.stimulus.script "A" 3 none ≡ some "TRUE")
unfolding bool_inputs
run_truth-held_example =
    run_truth-held (symbol_a ∷ symbol_b ∷ []) a_tab [] symbol_a (symbol_b ∷ []) 2 refl
      (refl, (refl, tt)) (omega arith) (omega arith)

abbrev a_result : BlockSimRun
a_result = record {
  ok = true;
  stage = none;
  errors = none;
  cycles = some 2;
  cycle_ms = none;
  symbols = none;
  ports = none;
  program = none;
}

was_low : token_at three_cycles symbol_a 1 ≢ token_for "BOOL" (some "TRUE")
unfolding token_at token_for cell_at
was_low e = ground (arith, eq_iff "FALSE" "TRUE")

answer_cycles-stale_example :
    (let after =
        answer_cycles 2 a_result
          (set_cell 1 "A" "TRUE" (run_cycles "too many" (symbols_of two_inputs []) 2 a_tab).0) in
      (after.step ≡ 2)
      × (after.run ≡ some a_result)
      × (value_at a_request.stimulus "A" 1 ≢ some (token_at after.grid symbol_a 1)))
answer_cycles-stale_example =
    answer_cycles-stale "too many" two_inputs 2 a_tab a_request a_result symbol_a 1 "TRUE" asked
      refl a_is_input (omega arith) (omega arith) was_low
