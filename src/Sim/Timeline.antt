-- ===== src/Sim/Timeline.antt =====
-- The scan-cycle scrubber (components/graph/SimPanel.tsx).
use Prim.Native.Nat.{max, min}
use native.Mathlib.Nat.{add-zero, zero-add, mod-eq_of_lt, mod-add-mod, add-mod_right}
use veristc.Prelude.{
  ℕ, zero, suc, ◌∙◌, ap, sym, ◌+◌, ◌-◌, ◌%◌, ◌≤◌, ◌<◌, ◌≡◌, Option, or_else, [], Bool, false,
  length, get_elem?, filter, arith, if◌then◌else◌, leb, nat_beq,
}
use veristc.Sim.Types.{SimRun, CycleRow, SymbolSeries}

unfoldable pub cycle_count : SimRun → ℕ
cycle_count run = length (or_else run.timeline [])

-- The index that the timer of a replay asks for.
unfoldable pub next_cycle : ℕ → ℕ → ℕ
next_cycle cycle count = (cycle + 1) % count

-- `step(index)` at an index that is not negative: the index that is asked for.
unfoldable pub step : ℕ → ℕ → ℕ
step index count = max 0 (min (count - 1) index)

-- The five ways to move by hand: the four buttons and the slider, whose input counts from 1.
pub data Move : Type 0 where
  first previous next last : Move
  slide : ℕ → Move

-- A button is disabled at its end of the timeline.
unfoldable pub is_disabled : Move → ℕ → ℕ → Bool
is_disabled Move.first cycle count = nat_beq cycle 0
is_disabled Move.previous cycle count = nat_beq cycle 0
is_disabled Move.next cycle count = leb (count - 1) cycle
is_disabled Move.last cycle count = leb (count - 1) cycle
is_disabled (Move.slide n) cycle count = false

unfoldable pub move : Move → ℕ → ℕ → ℕ
unfolding step is_disabled
move Move.first cycle count = if is_disabled Move.first cycle count then cycle else step 0 count
move Move.previous cycle count =
    if is_disabled Move.previous cycle count then cycle else step (cycle - 1) count
move Move.next cycle count =
    if is_disabled Move.next cycle count then cycle else step (cycle + 1) count
move Move.last cycle count =
    if is_disabled Move.last cycle count then cycle else step (count - 1) count
move (Move.slide n) cycle count = n - 1

-- The row of the frame that is shown.
unfoldable pub shown_row : SimRun → ℕ → Option CycleRow
unfolding cycle_count
shown_row run cycle = get_elem? (or_else run.timeline []) (min cycle (cycle_count run - 1))

-- How many symbols the frames reported as overridden at the cycle.
unfoldable pub forced_count : SimRun → ℕ → ℕ
forced_count run cycle = length (
    filter (λ (row : SymbolSeries). or_else (get_elem? row.forced cycle) false)
      (or_else run.symbols []))

-- The slider has a position for each cycle.
abbrev pub IsPossible : Move → ℕ → Type 0
IsPossible (Move.slide n) count = (1 ≤ n) × (n ≤ count)
IsPossible _ count = Unit

-- From a cycle of the run, no button and no position of the slider leads off its timeline.
pub move-lt :
    (m : Move) (cycle count : ℕ) → cycle < count → IsPossible m count → move m cycle count < count
unfolding move
move-lt Move.first cycle count h s = ground arith
move-lt Move.previous cycle count h s = ground arith
move-lt Move.next cycle count h s = ground arith
move-lt Move.last cycle count h s = ground arith
move-lt (Move.slide n) cycle count h s = omega arith

-- A replay of so many rounds of the timer.
abbrev pub replay : ℕ → ℕ → ℕ → ℕ
replay zero cycle count = cycle
replay (suc k) cycle count = replay k (next_cycle cycle count) count

replay-mod : (k cycle count : ℕ) → cycle < count → replay k cycle count ≡ (cycle + k) % count
unfolding next_cycle
replay-mod zero cycle count h = rw add-zero (sym (mod-eq_of_lt h))
replay-mod (suc k) cycle count h =
    replay-mod k ((cycle + 1) % count) count (omega arith)
    ∙ mod-add-mod (cycle + 1) count k
    ∙ ap (λ n. n % count) (omega arith)

-- A replay runs through the whole timeline and comes back: from the first cycle it shows cycle `k`
-- after `k` rounds, and from any cycle it is back after as many rounds as there are cycles.
pub replay_period :
    (cycle k count : ℕ)
    → cycle < count
    → k < count
    → (replay k 0 count ≡ k) × (replay count cycle count ≡ cycle)
replay_period cycle k count h lt = (
  replay-mod k 0 count (omega arith) ∙ rw zero-add (mod-eq_of_lt lt),
  replay-mod count cycle count h ∙ add-mod_right cycle count ∙ mod-eq_of_lt h,
)
