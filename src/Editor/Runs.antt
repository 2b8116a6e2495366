-- ===== src/Editor/Runs.antt =====
-- A simulation run and the edits around it (pages/GraphEditorPage.tsx). A run simulates the pages that
-- the sidecar has stored, and those lag behind the edits by the save timer: `chart` counts the edits
-- made on the page, and `unsaved` the last of them, those that the sidecar has not stored yet. `asked`
-- and `measured` are the number of edits in the pages stored at the request that is out, and at that of
-- the run that is kept. The source has none of the four, and nothing reads them but the theorems.
use veristc.Prelude.{
  ℕ, suc, ◌-◌, String, Bool, true, false, Option, none, some, List, [], if◌then◌else◌,
}
use veristc.Sim.Types.{SimRun}
use veristc.Sim.Values.{Printing, pin_values, pin_forced}

pub data PanelTab : Type 0 where
  check st analysis sim stim : PanelTab

pub record Runs : Type 0 where
  pub sim : Option SimRun
  pub sim_error : Option String
  pub sim_busy : Bool
  pub sim_stale : Bool
  pub cycle_index : ℕ
  pub panel : PanelTab
  pub chart : ℕ
  pub unsaved : ℕ
  pub asked : ℕ
  pub measured : ℕ

-- `runSim`, up to the request.
unfoldable pub ask : Runs → Runs
ask r = record r { sim_busy = true; sim_error = none; asked = r.chart - r.unsaved }

-- The run that it asked for, and what is done when there is none.
unfoldable pub receive : SimRun → Runs → Runs
receive run r = record r {
  sim = some run;
  cycle_index = 0;
  sim_stale = false;
  panel = PanelTab.sim;
  sim_busy = false;
  measured = r.asked;
}

unfoldable pub fail_run : String → Runs → Runs
fail_run message r = record r { sim_error = some message; sim = none; sim_busy = false }

-- What `patch` does to a run.
unfoldable pub edit_chart : Runs → Runs
edit_chart r = record r { sim_stale = true; chart = suc r.chart; unsaved = suc r.unsaved }

-- The sidecar stores the page of a save, and so many of the edits are newer.
abbrev pub store : ℕ → Runs → Runs
store newer r = record r { unsaved = newer }

-- The texts of the pins of a sheet, and the marks of those that were forced.
module _ (printing : Printing) where
  unfoldable pub values_shown : Runs → String → List (String × String)
  unfolding pin_values
  values_shown r page_id =
      if r.sim_stale then [] else pin_values printing r.sim page_id r.cycle_index

unfoldable pub forced_shown : Runs → String → List (String × Bool)
unfolding pin_forced
forced_shown r page_id = if r.sim_stale then [] else pin_forced r.sim page_id r.cycle_index
