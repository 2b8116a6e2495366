-- ===== src/Tests/Simulation.antt =====
-- Runs of the theorems on simulations.
use veristc.Prelude.{◌≡◌, refl, ◌<◌, ◌↔◌, ◌⊎◌, true, false, none, some, [], ◌∷◌, In, lookup}
use veristc.Sim.Values.{pin_values, pin_forced}
use veristc.Sim.Stimulus.{stimulus_payload, ForceEntry, ScriptEntry}
use veristc.Sim.Types.{PinRow, ForceRow, ScriptRow}
use veristc.Lang.Trim.{trim}
use veristc.Sim.Shown.{last_text, row_key, SaysForced, lookup-pin_values, pin_forced_iff}
use veristc.Sim.Requests.{IsMeant, stimulus_payload-In}
use veristc.Editor.Runs.{
  Runs, PanelTab, ask, receive, edit_chart, store, values_shown, forced_shown,
}
use veristc.Editor.Measuring.{
  asks, receives, Reach.here, Reach.next, values_shown-measured, receive_keeps_stale,
}
use veristc.Tests.Samples.{printing, series_a, row_a, a_run, a_force, a_record}

lookup-pin_values_example :
    lookup "add1.Q" (pin_values printing (some a_run) "p1" 0)
    ≡ last_text printing (series_a ∷ []) "p1" 0 "add1.Q" (row_a ∷ [])
lookup-pin_values_example =
    lookup-pin_values printing a_run (row_a ∷ []) (series_a ∷ []) "p1" 0 "add1.Q" refl refl

pin_forced_iff_example : (lookup "add1.Q" (pin_forced (some a_run) "p1" 0) ≡ some true) ↔ (
    (pin : PinRow) × In pin (row_a ∷ [])
    × (pin.page ≡ "p1")
    × (row_key pin ≡ "add1.Q")
    × SaysForced (series_a ∷ []) 0 pin)
pin_forced_iff_example = pin_forced_iff a_run (row_a ∷ []) (series_a ∷ []) "p1" 0 "add1.Q" refl refl

abbrev sent_force : ForceEntry
sent_force = record { name = trim a_force.name; value = trim a_force.value }

abbrev sent_record : ScriptEntry
sent_record = record { cycle = a_record.cycle; name = "A"; value = "1" }

stimulus_payload-In_example :
    (In sent_force (stimulus_payload (a_force ∷ []) (a_record ∷ [])).forces ↔ (
      (row : ForceRow) × In row (a_force ∷ [])
      × IsMeant row.on row.name row.value
      × (sent_force ≡ record { name = trim row.name; value = trim row.value })))
    × (In sent_record (stimulus_payload (a_force ∷ []) (a_record ∷ [])).script ↔ (
        (row : ScriptRow) × In row (a_record ∷ [])
        × IsMeant row.on row.name row.value
        × (sent_record
            ≡ record { cycle = row.cycle; name = trim row.name; value = trim row.value })))
stimulus_payload-In_example =
    stimulus_payload-In (a_force ∷ []) (a_record ∷ []) sent_force sent_record

abbrev idle : Runs
idle = record {
  sim = none;
  sim_error = none;
  sim_busy = false;
  sim_stale = false;
  cycle_index = 0;
  panel = PanelTab.check;
  chart = 3;
  unsaved = 0;
  asked = 0;
  measured = 0;
}

values_shown-measured_example :
    ((values_shown printing (receive a_run (ask idle)) "p1" ≡ [])
      × (forced_shown (receive a_run (ask idle)) "p1" ≡ []))
    ⊎ ((receive a_run (ask idle)).measured ≡ (receive a_run (ask idle)).chart)
unfolding ask receive
values_shown-measured_example =
    values_shown-measured printing idle (receive a_run (ask idle)) "p1"
      (record { out = λ e. absurd (cc e); kept = λ e. absurd (cc e) })
      (next (next here (asks refl refl)) (receives a_run refl)) refl

receive_keeps_stale_example :
    (values_shown printing (receive a_run (edit_chart (ask idle))) "p1"
      ≡ pin_values printing (some a_run) "p1" 0)
    × ((receive a_run (edit_chart (ask idle))).measured
        < (receive a_run (edit_chart (ask idle))).chart)
receive_keeps_stale_example = receive_keeps_stale printing idle a_run "p1" refl

-- An edit, and a run before it is saved; then it is saved, and the run comes.
abbrev late : Runs
late = receive a_run (store 0 (ask (edit_chart idle)))
