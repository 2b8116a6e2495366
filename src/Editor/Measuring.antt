-- ===== src/Editor/Measuring.antt =====
-- Whether the values on a sheet belong to the chart on it (pages/GraphEditorPage.tsx).
use veristc.Prelude.{
  ℕ, ◌≡◌, refl, ◌<◌, ◌≤◌, ◌⊎◌, arith, Bool-cases, inl, inr, String, Bool, true, false, some, [],
  if◌then◌else◌, is_some,
}
use veristc.Sim.Types.{SimRun}
use veristc.Sim.Values.{Printing, pin_values, pin_forced}
use veristc.Editor.Runs.{
  Runs, ask, receive, fail_run, edit_chart, store, values_shown, forced_shown,
}

-- The steps of a page on which runs are asked for once every edit is saved, and no edit is made while a
-- run is out. The button is off for so long.
pub data Step (r : Runs) : Runs → Type 0 where
  asks : r.sim_busy ≡ false → r.unsaved ≡ 0 → Step r (ask r)
  saves : (newer : ℕ) → newer ≤ r.unsaved → Step r (store newer r)
  receives : (run : SimRun) → r.sim_busy ≡ true → Step r (receive run r)
  fails : (message : String) → r.sim_busy ≡ true → Step r (fail_run message r)
  edits : r.sim_busy ≡ false → Step r (edit_chart r)

pub data Reach (r : Runs) : Runs → Type 0 where
  here : Reach r r
  next : {s t : Runs} → Reach r s → Step s t → Reach r t

-- A run that is out is of the chart as it is, and so is a run that is not retired.
pub record IsMeasured (r : Runs) : Type 0 where
  pub out : r.sim_busy ≡ true → r.asked ≡ r.chart
  pub kept : is_some r.sim ≡ true → r.sim_stale ≡ false → r.measured ≡ r.chart

Step-IsMeasured : {r s : Runs} → Step r s → IsMeasured r → IsMeasured s
unfolding ask receive fail_run edit_chart
Step-IsMeasured (asks idle saved) m = record { out = λ _. omega (arith, saved); kept = m.kept }
Step-IsMeasured (saves newer less) m = record { out = m.out; kept = m.kept }
Step-IsMeasured (receives run busy) m = record {
  out = λ e. absurd (cc e);
  kept = λ _ _. m.out busy;
}
Step-IsMeasured (fails message busy) m = record {
  out = λ e. absurd (cc e);
  kept = λ e. absurd (cc e);
}
Step-IsMeasured (edits idle) m = record {
  out = λ e. absurd (cc (e, idle));
  kept = λ _ e. absurd (cc e);
}

pub Reach-IsMeasured : {r s : Runs} → IsMeasured r → Reach r s → IsMeasured s
Reach-IsMeasured m here = m
Reach-IsMeasured m (next reach step) = Step-IsMeasured step (Reach-IsMeasured m reach)

-- The values on a sheet are those of the chart on it, from a state in which that is so, as long as runs
-- are asked for only when every edit is saved and no edit is made while one is out: the sheet either
-- shows no values and marks none as forced, or the pages that the sidecar had stored when it was asked
-- for their run had all the edits made so far.
pub values_shown-measured :
    (printing : Printing) (r s : Runs) (page_id : String)
    → IsMeasured r
    → Reach r s
    → is_some s.sim ≡ true
    → ((values_shown printing s page_id ≡ []) × (forced_shown s page_id ≡ []))
      ⊎ (s.measured ≡ s.chart)
unfolding values_shown forced_shown
values_shown-measured printing r s page_id m reach has = elim (Bool-cases s.sim_stale) [
  | inl e ↦ inl (retired s.sim_stale e)
  | inr e ↦ inr ((Reach-IsMeasured m reach).kept has e)
]
  where
    retired :
        (stale : Bool)
        → stale ≡ true
        → ((if stale then [] else pin_values printing s.sim page_id s.cycle_index) ≡ [])
          × ((if stale then [] else pin_forced s.sim page_id s.cycle_index) ≡ [])
    retired true h = (refl, refl)
    retired false h = absurd (cc h)

-- An edit that is made while a run is out does not retire that run: when it comes, the sheet shows its
-- values, and they were measured for a chart without the edit.
pub receive_keeps_stale :
    (printing : Printing) (r : Runs) (run : SimRun) (page_id : String)
    → r.sim_busy ≡ false
    → (let s : Runs = receive run (edit_chart (ask r)) in
        (values_shown printing s page_id ≡ pin_values printing (some run) page_id 0)
        × (s.measured < s.chart))
unfolding values_shown ask receive edit_chart
receive_keeps_stale printing r run page_id idle = (refl, omega arith)
