-- ===== src/Blocks/Requests.antt =====
-- The runs that the simulation tab asks for (`runCycles`, components/library/BlockEditor.tsx).
use veristc.Prelude.{
  ℕ, ◌≤◌, ◌≡◌, ◌↔◌, ltb, refl, String, none, some, List, [], length, true, false, ◌||◌, In,
  Bool-cases, inl, inr, ◌≢◌, is_some, insert, lookup-insert, eq_refl, or_else, ◌∷◌, ◌⊎◌, arith, ap,
  subst, ◌∙◌,
}
use veristc.Blocks.Types.{BlockPort}
use veristc.Blocks.Symbols.{PortSymbol, symbols_of}
use veristc.Blocks.Grid.{
  token_at, build_stimulus, put_cell, Grid, cell_at, token_for, row_at, put_row, Row,
}
use veristc.Blocks.Cycles.{
  BlockSimRun, SimTab, SimRequest, script_max, run_cycles, answer_cycles, set_cell,
}
use veristc.Blocks.Held.{value_at}
use veristc.Blocks.Replay.{value_at-build_stimulus}

-- What a request for some cycles has to be: it is within the tab's cycles and the runner's budget, and
-- holds each input in each cycle at the value of the grid.
abbrev pub Faithful : List BlockPort → ℕ → SimTab → SimRequest → Type 0
Faithful inputs k tab sent =
    (sent.cycles ≡ k)
    × (1 ≤ k)
    × (k ≤ tab.cycles)
    × (length sent.stimulus.script ≤ script_max)
    × ((p : PortSymbol) (cycle : ℕ)
        → In p (symbols_of inputs [])
        → 1 ≤ cycle
        → cycle ≤ k
        → value_at sent.stimulus p.symbol cycle ≡ some (token_at tab.grid p cycle))

run_cycles-cases :
    (too_many : String) (inputs : List PortSymbol) (k : ℕ) (tab : SimTab)
    → ((run_cycles too_many inputs k tab).1 ≡ none)
      ⊎ (((run_cycles too_many inputs k tab).1
            ≡ some (record { cycles = k; stimulus = build_stimulus tab.grid k inputs }))
          × (1 ≤ k)
          × (k ≤ tab.cycles)
          × (length (build_stimulus tab.grid k inputs).script ≤ script_max))
unfolding run_cycles
run_cycles-cases too_many inputs k tab =
    elim (Bool-cases (tab.running || (ltb k 1 || ltb tab.cycles k))) [
      | inl busy ↦ rw busy (inl refl)
      | inr idle ↦
          elim (Bool-cases (ltb script_max (length (build_stimulus tab.grid k inputs).script))) [
            | inl long ↦ rw (idle, long) (inl refl)
            | inr short ↦ rw (idle, short) (inr (refl, ground arith, ground arith, ground arith))
          ]
    ]

-- Every run that Step and Run all ask for goes over at least one of its cycles, stays within the runner's
-- budget of records, and holds each input of the block in each cycle at the value of the grid.
run_cycles-Faithful :
    (too_many : String) (inputs : List BlockPort) (k : ℕ) (tab : SimTab) (sent : SimRequest)
    → (run_cycles too_many (symbols_of inputs []) k tab).1 ≡ some sent
    → Faithful inputs k tab sent
run_cycles-Faithful too_many inputs k tab sent e =
    elim (run_cycles-cases too_many (symbols_of inputs []) k tab) [
      | inl nothing ↦ absurd (cc (e, nothing))
      | inr (asked, lo, hi, short) ↦ subst (Faithful inputs k tab) (cc) (
        refl,
        lo,
        hi,
        short,
        λ p cycle m h l. value_at-build_stimulus tab.grid k inputs p cycle m h l,
      )
    ]

-- A run is asked for exactly if none is under way, the cycles are the tab's, and its records are
-- within the runner's budget.
pub run_cycles-asks_iff :
    (too_many : String) (inputs : List PortSymbol) (k : ℕ) (tab : SimTab)
    → (is_some (run_cycles too_many inputs k tab).1 ≡ true) ↔ (
        (tab.running ≡ false)
        × (1 ≤ k)
        × (k ≤ tab.cycles)
        × (length (build_stimulus tab.grid k inputs).script ≤ script_max))
unfolding run_cycles
run_cycles-asks_iff too_many inputs k tab = ground arith

row_at-put_row :
    (cycle : ℕ) (row : Row) (grid : Grid) → row_at cycle (put_row cycle row grid) ≡ some row
row_at-put_row cycle row [] = ground arith
row_at-put_row cycle row ((at, old) ∷ grid) = ground (arith, row_at-put_row cycle row grid)

cell_at-put_cell :
    (cycle : ℕ) (port value : String) (grid : Grid)
    → cell_at (put_cell cycle port value grid) cycle port ≡ some value
unfolding cell_at put_cell
cell_at-put_cell cycle port value grid =
    rw (cell_at, row_at-put_row cycle (insert port value (or_else (row_at cycle grid) [])) grid)
      (lookup-insert port port value (or_else (row_at cycle grid) [])
        ∙ ground (arith, eq_refl port))

token_at-put_cell :
    (cycle : ℕ) (p : PortSymbol) (value : String) (grid : Grid)
    → token_at (put_cell cycle p.port value grid) p cycle ≡ token_for p.type (some value)
unfolding token_at
token_at-put_cell cycle p value grid =
    ap (token_for p.type) (cell_at-put_cell cycle p.port value grid)

-- A cell that is edited while a run is under way does not stop its answer: the run is shown, with all
-- its cycles as stepped, though an input of it had another value than the grid now presets.
pub answer_cycles-stale :
    (too_many : String) (inputs : List BlockPort) (k : ℕ) (tab : SimTab) (sent : SimRequest)
    (result : BlockSimRun) (p : PortSymbol) (cycle : ℕ) (value : String)
    → (run_cycles too_many (symbols_of inputs []) k tab).1 ≡ some sent
    → result.ok ≡ true
    → In p (symbols_of inputs [])
    → 1 ≤ cycle
    → cycle ≤ k
    → token_at tab.grid p cycle ≢ token_for p.type (some value)
    → let after =
        answer_cycles k result
          (set_cell cycle p.port value (run_cycles too_many (symbols_of inputs []) k tab).0) in
      (after.step ≡ k)
      × (after.run ≡ some result)
      × (value_at sent.stimulus p.symbol cycle ≢ some (token_at after.grid p cycle))
unfolding answer_cycles set_cell
answer_cycles-stale too_many inputs k tab sent result p cycle value e ok m lo hi other =
    let (same_cycles, low, high, short, presets) =
      run_cycles-Faithful too_many inputs k tab sent e in
    (
      rw ok,
      refl,
      λ same. other (
          cc (
            same,
            presets p cycle m lo hi,
            token_at-put_cell cycle p value
                (run_cycles too_many (symbols_of inputs []) k tab).0.grid,
          )),
    )
