-- ===== src/Blocks/Replay.antt =====
-- The stimulus of a block's run against the grid that it was made from (`buildStimulus`,
-- components/library/BlockEditor.tsx).
use veristc.Prelude.{
  ℕ, ◌-◌, ◌≤◌, ◌≡◌, refl, sym, ap, ◌∙◌, String, ◌==◌, eq_iff, eq_refl, none, some, List, [], ◌∷◌,
  ◌++◌, true, false, leb, All, All-append, All-mono, Bool-cases, inl, inr, In, Nodup, contains,
  arith,
}
use veristc.Sim.Stimulus.{ScriptEntry}
use veristc.Blocks.Symbols.{PortSymbol, symbol_names, symbols_of}
use veristc.Blocks.Distinct.{symbols_of-Nodup}
use veristc.Blocks.Grid.{Grid, token_at, is_constant, changes, stimulus_of, build_stimulus}
use veristc.Blocks.Types.{BlockPort}
use veristc.Blocks.Held.{
  forced_value, held, or_held_cong, value_at, held-append, held_others, held_due, changes-Start,
  held-changes, is_constant-held,
}

contains-symbol_names :
    (p : PortSymbol) (ps : List PortSymbol) → In p ps → contains (symbol_names ps) p.symbol ≡ true
contains-symbol_names p [] m = absurd m
contains-symbol_names p (q ∷ ps) (inl e) = rw e (ground (arith, eq_refl q.symbol))
contains-symbol_names p (q ∷ ps) (inr m) = ground (arith, contains-symbol_names p ps m)

module _ (token : PortSymbol → ℕ → String) (upto : ℕ) where
  -- The records of one input that varies.
  abbrev records_of : PortSymbol → List ScriptEntry
  records_of p =
      record { cycle = 1; name = p.symbol; value = token p 1 }
      ∷ changes (token p) p.symbol (token p 1) (upto - 1) 2

  -- The two kinds of input, each as an equation.
  stimulus_of_force :
      (p : PortSymbol) (ps : List PortSymbol)
      → is_constant (token p) (token p 1) (upto - 1) 2 ≡ true
      → stimulus_of token upto (p ∷ ps) ≡ record (stimulus_of token upto ps) {
        forces = record { name = p.symbol; value = token p 1 } ∷ (stimulus_of token upto ps).forces;
      }
  unfolding stimulus_of
  stimulus_of_force p ps h = rw h

  stimulus_of_script :
      (p : PortSymbol) (ps : List PortSymbol)
      → is_constant (token p) (token p 1) (upto - 1) 2 ≡ false
      → stimulus_of token upto (p ∷ ps) ≡ record (stimulus_of token upto ps) {
        script = records_of p ++ (stimulus_of token upto ps).script;
      }
  unfolding stimulus_of
  stimulus_of_script p ps h = rw h

  -- A stimulus names the symbols of its inputs only.
  stimulus_of-names :
      (inputs : List PortSymbol) (symbol : String)
      → contains (symbol_names inputs) symbol ≡ false
      → (forced_value (stimulus_of token upto inputs).forces symbol ≡ none)
        × All
            (λ (r : ScriptEntry). (r.name == symbol) ≡ false)
            (stimulus_of token upto inputs).script
  unfolding stimulus_of
  stimulus_of-names [] symbol h = (refl, tt)
  stimulus_of-names (p ∷ ps) symbol h =
      let rest = stimulus_of-names ps symbol (ground arith) in
      elim (Bool-cases (is_constant (token p) (token p 1) (upto - 1) 2)) [
        | inl stays ↦ rw (stimulus_of_force p ps stays) (ground arith, rest.1)
        | inr varies ↦ rw (stimulus_of_script p ps varies) (
          rest.0,
          (
            ground arith,
            All-append _ (changes (token p) p.symbol (token p 1) (upto - 1) 2) _
                (All-mono (λ r k. rw (k.0) (ground arith)) _
                  (changes-Start (token p) p.symbol (token p 1) (upto - 1) 2))
                rest.1,
          ),
        )
      ]

  stays_first :
      (p : PortSymbol) (cycle : ℕ)
      → is_constant (token p) (token p 1) (upto - 1) 2 ≡ true
      → 1 ≤ cycle
      → cycle ≤ upto
      → token p cycle ≡ token p 1
  stays_first p cycle stays h k = elim (Bool-cases (leb 2 cycle)) [
    | inl later ↦
        is_constant-held (token p) (token p 1) (upto - 1) 2 cycle stays (ground arith) (omega arith)
    | inr first ↦ ap (token p) (ground arith)
  ]

  -- The first input of the list, whose symbol no other has.
  stimulus_of-head :
      (p : PortSymbol) (ps : List PortSymbol) (cycle : ℕ)
      → contains (symbol_names ps) p.symbol ≡ false
      → 1 ≤ cycle
      → cycle ≤ upto
      → value_at (stimulus_of token upto (p ∷ ps)) p.symbol cycle ≡ some (token p cycle)
  stimulus_of-head p ps cycle n h k =
      let others = stimulus_of-names ps p.symbol n in
      elim (Bool-cases (is_constant (token p) (token p 1) (upto - 1) 2)) [
        | inl stays ↦
            rw (stimulus_of_force p ps stays, eq_refl p.symbol)
              (ap some (sym (stays_first p cycle stays h k)))
        | inr varies ↦
            rw (stimulus_of_script p ps varies, others.0)
              (held-append (records_of p) (stimulus_of token upto ps).script p.symbol cycle none
                ∙ held_others (stimulus_of token upto ps).script p.symbol cycle
                    (held (records_of p) p.symbol cycle none)
                    (All-mono (λ r e. ground arith) (stimulus_of token upto ps).script others.1)
                ∙ held_due 1 p.symbol (token p 1)
                    (changes (token p) p.symbol (token p 1) (upto - 1) 2) cycle none h
                ∙ held-changes (token p) p.symbol (upto - 1) 1 cycle h (omega arith))
      ]

  -- The other inputs, whose symbols the first one does not have.
  stimulus_of-tail :
      (p : PortSymbol) (ps : List PortSymbol) (symbol : String) (cycle : ℕ)
      → (p.symbol == symbol) ≡ false
      → value_at (stimulus_of token upto (p ∷ ps)) symbol cycle
        ≡ value_at (stimulus_of token upto ps) symbol cycle
  stimulus_of-tail p ps symbol cycle n =
      elim (Bool-cases (is_constant (token p) (token p 1) (upto - 1) 2)) [
        | inl stays ↦ rw (stimulus_of_force p ps stays, n)
        | inr varies ↦ rw (stimulus_of_script p ps varies) (
            or_held_cong (forced_value (stimulus_of token upto ps).forces symbol)
              (records_of p ++ (stimulus_of token upto ps).script)
              (stimulus_of token upto ps).script symbol cycle
              (held-append (records_of p) (stimulus_of token upto ps).script symbol cycle none
                ∙ ap (held (stimulus_of token upto ps).script symbol cycle) (
                    held_others (records_of p) symbol cycle none (
                      ground arith,
                      All-mono (λ r e. rw (e.0) (ground arith)) _
                          (changes-Start (token p) p.symbol (token p 1) (upto - 1) 2),
                    ))))
      ]

  -- A run with the stimulus that is sent for some inputs, whose symbols differ, holds each of them in
  -- each cycle at the value that is preset.
  pub value_at-stimulus_of :
      (inputs : List PortSymbol) (p : PortSymbol) (cycle : ℕ)
      → Nodup (symbol_names inputs)
      → In p inputs
      → 1 ≤ cycle
      → cycle ≤ upto
      → value_at (stimulus_of token upto inputs) p.symbol cycle ≡ some (token p cycle)
  value_at-stimulus_of [] p cycle n m h k = absurd m
  value_at-stimulus_of (q ∷ ps) p cycle n (inl e) h k = rw e (stimulus_of-head q ps cycle n.0 h k)
  value_at-stimulus_of (q ∷ ps) p cycle n (inr m) h k =
      stimulus_of-tail q ps p.symbol cycle
        (ground (arith, eq_iff q.symbol p.symbol, contains-symbol_names p ps m, n.0))
      ∙ value_at-stimulus_of ps p cycle n.1 m h k

-- A run of a block sees in each cycle, at each of its inputs, the value that the grid presets there.
pub value_at-build_stimulus :
    (grid : Grid) (upto : ℕ) (inputs : List BlockPort) (p : PortSymbol) (cycle : ℕ)
    → In p (symbols_of inputs [])
    → 1 ≤ cycle
    → cycle ≤ upto
    → value_at (build_stimulus grid upto (symbols_of inputs [])) p.symbol cycle
      ≡ some (token_at grid p cycle)
unfolding build_stimulus
value_at-build_stimulus grid upto inputs p cycle m h k =
    value_at-stimulus_of (token_at grid) upto (symbols_of inputs []) p cycle
      (symbols_of-Nodup inputs []) m h k
