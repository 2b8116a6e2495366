-- ===== src/Blocks/Combinations.antt =====
-- The rows of the truth table in the run that computes it (`handleRunTruth`).
use veristc.Prelude.{
  length-append, ℕ, zero, suc, ◌+◌, ◌≤◌, ◌<◌, ◌^◌, ◌≡◌, refl, ap, subst, ◌∙◌, ◌/◌, ◌%◌, nat_beq,
  String, ◌==◌, eq_iff, eq_refl, if◌then◌else◌, Option, none, some, List, [], ◌∷◌, ◌++◌, true,
  false, leb, Bool-cases, inl, inr, Nodup, contains, arith, length, lookup, insert, lookup-insert,
}
use veristc.Blocks.Symbols.{PortSymbol, symbol_names}
use veristc.Blocks.Truth.{
  truth_stimulus, bool_inputs, combos, bit, row_value, Table, is_value, truth_step, truth_row,
  truth_rows, truth_script,
}
use veristc.Blocks.Cycles.{SimTab, run_truth}
use veristc.Blocks.Held.{held, held-append}

-- From a cycle on, the records of a table leave each symbol at the value that the table keeps.
abbrev Synced : ℕ → Table → Type 0
Synced from t =
    (symbol : String) (cycle : ℕ)
    → from ≤ cycle
    → held t.script symbol cycle none ≡ lookup symbol t.held

is_value_iff : (old : Option String) (value : String) → is_value old value ≡ true → old ≡ some value
is_value_iff none value h = absurd (cc h)
is_value_iff (some old) value h = ap some ((eq_iff old value).0 h)

module _ (cycle : ℕ) (symbol value : String) (t : Table) where
  step_kept : is_value (lookup symbol t.held) value ≡ true → truth_step cycle symbol value t ≡ t
  unfolding truth_step
  step_kept h = rw h

  step_new :
      is_value (lookup symbol t.held) value ≡ false
      → truth_step cycle symbol value t ≡ record {
        script = t.script ++ record { cycle = cycle; name = symbol; value = value } ∷ [];
        held = insert symbol value t.held;
      }
  unfolding truth_step
  step_new h = rw h

  truth_step-Synced :
      (from : ℕ) → from ≤ cycle → Synced from t → Synced cycle (truth_step cycle symbol value t)
  truth_step-Synced from le h other at k =
      elim (Bool-cases (is_value (lookup symbol t.held) value)) [
        | inl kept ↦ rw (step_kept kept) (h other at (omega arith))
        | inr new ↦
            rw (step_new new, lookup-insert symbol other value t.held)
              (held-append t.script (record { cycle = cycle; name = symbol; value = value } ∷ [])
                  other at none
                ∙ ground (arith, h other at (omega arith)))
      ]

  -- The symbol of a step has the value of the step, and each other symbol the one it had.
  truth_step-value : lookup symbol (truth_step cycle symbol value t).held ≡ some value
  truth_step-value = elim (Bool-cases (is_value (lookup symbol t.held) value)) [
    | inl kept ↦ rw (step_kept kept) (is_value_iff (lookup symbol t.held) value kept)
    | inr new ↦
        rw (step_new new, lookup-insert symbol symbol value t.held) (ground (arith, eq_refl symbol))
  ]

  truth_step-other :
      (other : String)
      → (symbol == other) ≡ false
      → lookup other (truth_step cycle symbol value t).held ≡ lookup other t.held
  truth_step-other other n = elim (Bool-cases (is_value (lookup symbol t.held) value)) [
    | inl kept ↦ rw (step_kept kept)
    | inr new ↦ rw (step_new new, lookup-insert symbol other value t.held) (ground arith)
  ]

  -- Earlier cycles are not touched.
  truth_step-earlier :
      (other : String) (at : ℕ)
      → at < cycle
      → held (truth_step cycle symbol value t).script other at none ≡ held t.script other at none
  truth_step-earlier other at k = elim (Bool-cases (is_value (lookup symbol t.held) value)) [
    | inl kept ↦ rw (step_kept kept)
    | inr new ↦ rw (step_new new) (
        held-append t.script (record { cycle = cycle; name = symbol; value = value } ∷ []) other at
          none
        ∙ ground arith)
  ]

module _ (row : ℕ) where
  truth_row-Synced :
      (ps : List PortSymbol) (t : Table) (from : ℕ)
      → from ≤ suc row
      → Synced from t
      → Synced (suc row) (truth_row row ps t)
  unfolding truth_row
  truth_row-Synced [] t from le h = λ symbol cycle k. h symbol cycle (omega arith)
  truth_row-Synced (p ∷ ps) t from le h =
      truth_row-Synced ps (truth_step (suc row) p.symbol (row_value row (length ps)) t) (suc row)
        (omega arith) (truth_step-Synced (suc row) p.symbol (row_value row (length ps)) t from le h)

  truth_row-other :
      (ps : List PortSymbol) (t : Table) (symbol : String)
      → contains (symbol_names ps) symbol ≡ false
      → lookup symbol (truth_row row ps t).held ≡ lookup symbol t.held
  unfolding truth_row
  truth_row-other [] t symbol h = refl
  truth_row-other (p ∷ ps) t symbol h =
      truth_row-other ps (truth_step (suc row) p.symbol (row_value row (length ps)) t) symbol
        (ground arith)
      ∙ truth_step-other (suc row) p.symbol (row_value row (length ps)) t symbol (ground arith)

  -- After a row, each input has the bit of its place.
  truth_row-value :
      (pre : List PortSymbol) (p : PortSymbol) (post : List PortSymbol) (t : Table)
      → Nodup (symbol_names (pre ++ p ∷ post))
      → lookup p.symbol (truth_row row (pre ++ p ∷ post) t).held
        ≡ some (row_value row (length post))
  unfolding truth_row
  truth_row-value [] p post t n =
      truth_row-other post (truth_step (suc row) p.symbol (row_value row (length post)) t) p.symbol
        (n.0)
      ∙ truth_step-value (suc row) p.symbol (row_value row (length post)) t
  truth_row-value (q ∷ pre) p post t n =
      truth_row-value pre p post
        (truth_step (suc row) q.symbol (row_value row (length (pre ++ p ∷ post))) t) n.1

  truth_row-earlier :
      (ps : List PortSymbol) (t : Table) (symbol : String) (at : ℕ)
      → at ≤ row
      → held (truth_row row ps t).script symbol at none ≡ held t.script symbol at none
  unfolding truth_row
  truth_row-earlier [] t symbol at k = refl
  truth_row-earlier (p ∷ ps) t symbol at k =
      truth_row-earlier ps (truth_step (suc row) p.symbol (row_value row (length ps)) t) symbol at k
      ∙ truth_step-earlier (suc row) p.symbol (row_value row (length ps)) t symbol at (omega arith)

truth_rows-earlier :
    (n row : ℕ) (ps : List PortSymbol) (t : Table) (symbol : String) (at : ℕ)
    → at ≤ row
    → held (truth_rows n row ps t).script symbol at none ≡ held t.script symbol at none
unfolding truth_rows
truth_rows-earlier zero row ps t symbol at k = refl
truth_rows-earlier (suc n) row ps t symbol at k =
    truth_rows-earlier n (suc row) ps (truth_row row ps t) symbol at (omega arith)
    ∙ truth_row-earlier row ps t symbol at k

-- In the cycle of a row, each input has the bit of its place.
truth_rows-value :
    (n start : ℕ) (pre : List PortSymbol) (p : PortSymbol) (post : List PortSymbol) (t : Table)
    (row : ℕ)
    → Nodup (symbol_names (pre ++ p ∷ post))
    → Synced start t
    → start ≤ row
    → row < start + n
    → held (truth_rows n start (pre ++ p ∷ post) t).script p.symbol (suc row) none
      ≡ some (row_value row (length post))
unfolding truth_rows
truth_rows-value zero start pre p post t row u h lo hi = absurd (omega arith)
truth_rows-value (suc n) start pre p post t row u h lo hi =
    elim (Bool-cases (leb (suc start) row)) [
      | inl later ↦
          truth_rows-value n (suc start) pre p post (truth_row start (pre ++ p ∷ post) t) row u
            (truth_row-Synced start (pre ++ p ∷ post) t start (omega arith) h) (ground arith)
            (omega arith)
      | inr now ↦
          subst
            (λ r.
              held (truth_rows (suc n) start (pre ++ p ∷ post) t).script p.symbol (suc r) none
              ≡ some (row_value r (length post)))
            (ground arith)
            (truth_rows-earlier n (suc start) (pre ++ p ∷ post)
                (truth_row start (pre ++ p ∷ post) t) p.symbol (suc start) (omega arith)
              ∙ truth_row-Synced start (pre ++ p ∷ post) t start (omega arith) h p.symbol
                  (suc start) (omega arith)
              ∙ truth_row-value start pre p post t u)
    ]

combos_small : (n : ℕ) → n < 31 → combos n ≡ 2 ^ n
unfolding combos
combos_small n h = ground arith

-- The cycle of a row has each input at the bit of the row at its place, the first one the highest.
held-truth_script :
    (pre : List PortSymbol) (p : PortSymbol) (post : List PortSymbol) (row : ℕ)
    → Nodup (symbol_names (pre ++ p ∷ post))
    → length (pre ++ p ∷ post) < 31
    → row < 2 ^ length (pre ++ p ∷ post)
    → held (truth_script (pre ++ p ∷ post)) p.symbol (suc row) none
      ≡ some (if nat_beq (row / 2 ^ length post % 2) 1 then "TRUE" else "FALSE")
unfolding truth_script row_value bit
held-truth_script pre p post row u small lt =
    truth_rows-value (combos (length (pre ++ p ∷ post))) 0 pre p post
      (record { script = []; held = [] }) row u (λ symbol cycle k. refl) (omega arith)
      (rw (combos_small (length (pre ++ p ∷ post)) small) (omega arith))
    ∙ ap (λ k. some (if nat_beq (row / 2 ^ k % 2) 1 then "TRUE" else "FALSE"))
        (omega (arith, length-append pre (p ∷ post)))

-- The request for the truth table of at most 30 Boolean inputs, with different symbols, asks for a cycle
-- for each combination of them. By its records up to the cycle after a row, each of the inputs is held
-- at the bit of the row at its place, the first input's the highest. Whether the runner takes that many
-- records and cycles is not stated: the button does not compare them with the runner's budget.
pub run_truth-held :
    (inputs : List PortSymbol) (tab : SimTab) (pre : List PortSymbol) (p : PortSymbol)
    (post : List PortSymbol) (row : ℕ)
    → bool_inputs inputs ≡ pre ++ p ∷ post
    → Nodup (symbol_names (pre ++ p ∷ post))
    → length (pre ++ p ∷ post) < 31
    → row < 2 ^ length (pre ++ p ∷ post)
    → ((run_truth inputs tab).1.cycles ≡ 2 ^ length (bool_inputs inputs))
      × (held (run_truth inputs tab).1.stimulus.script p.symbol (suc row) none
          ≡ some (if nat_beq (row / 2 ^ length post % 2) 1 then "TRUE" else "FALSE"))
unfolding run_truth truth_stimulus
run_truth-held inputs tab pre p post row split u small lt =
    rw split
      (combos_small (length (pre ++ p ∷ post)) small, held-truth_script pre p post row u small lt)
