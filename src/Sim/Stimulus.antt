-- ===== src/Sim/Stimulus.antt =====
-- The stimulus of a run request, and the rows that the engineer edits (components/graph/types.ts,
-- components/graph/StimulusPanel.tsx).
use Prim.Native.String
use Prim.Native.Nat.{max}
use veristc.Prelude.{
  ℕ, suc, ◌+◌, String, ◌==◌, if◌then◌else◌, Option, none, some, List, [], ◌∷◌, ◌++◌, map, filter,
  Bool, true, not, ◌&&◌,
}
use veristc.Lang.Decimal.{decimal}
use veristc.Lang.Trim.{trim}
use veristc.Sim.Types.{ForceRow, ScriptRow}

-- A row is only sent when it names a symbol and carries a value.
unfoldable pub usable : Bool → String → String → Bool
unfolding trim
usable on name value = on && (not (trim name == "") && not (trim value == ""))

pub record ForceEntry : Type 0 where
  pub name : String
  pub value : String

pub record ScriptEntry : Type 0 where
  pub cycle : ℕ
  pub name : String
  pub value : String

pub record Payload : Type 0 where
  pub forces : List ForceEntry
  pub script : List ScriptEntry

abbrev pub force_entry : ForceRow → ForceEntry
force_entry row = record { name = trim row.name; value = trim row.value }

abbrev pub script_entry : ScriptRow → ScriptEntry
script_entry row = record { cycle = row.cycle; name = trim row.name; value = trim row.value }

unfoldable pub stimulus_payload : List ForceRow → List ScriptRow → Payload
unfolding usable
stimulus_payload forces records = record {
  forces = map force_entry (filter (λ (row : ForceRow). usable row.on row.name row.value) forces);
  script =
      map script_entry (filter (λ (row : ScriptRow). usable row.on row.name row.value) records);
}

pub record RunBody : Type 0 where
  pub station : Option String
  pub cycles : ℕ
  pub stimulus : Payload

-- `simRunBody`; `station || null`.
unfoldable pub sim_run_body : String → ℕ → List ForceRow → List ScriptRow → RunBody
unfolding stimulus_payload
sim_run_body station cycles forces records = record {
  station = if station == "" then none else some station;
  cycles = cycles;
  stimulus = stimulus_payload forces records;
}

pub data Prefix : Type 0 where
  force script : Prefix

abbrev prefix_text : Prefix → String
prefix_text Prefix.force = "force"
prefix_text Prefix.script = "script"

-- `newStimulusId`, from the value of `stimulusSequence`: the id, and the sequence after it.
unfoldable pub new_stimulus_id : Prefix → ℕ → String × ℕ
unfolding decimal
new_stimulus_id p sequence = (String.◌++◌ (prefix_text p) (decimal (suc sequence)), suc sequence)

unfoldable pub make_force_row : String → String → ℕ → ForceRow × ℕ
unfolding new_stimulus_id
make_force_row name value sequence =
    let (id, next) = new_stimulus_id Prefix.force sequence in
    (record { id = id; name = name; value = value; on = true }, next)

unfoldable pub make_script_row : String → ℕ → String → ℕ → ScriptRow × ℕ
unfolding new_stimulus_id
make_script_row name cycle value sequence =
    let (id, next) = new_stimulus_id Prefix.script sequence in
    (record { id = id; cycle = max 1 cycle; name = name; value = value; on = true }, next)

-- `script[script.length - 1]?.cycle ?? 0`
unfoldable pub last_cycle : List ScriptRow → ℕ
last_cycle [] = 0
last_cycle (row ∷ []) = row.cycle
last_cycle (row ∷ next ∷ rows) = last_cycle (next ∷ rows)

-- `addForce` and `addRecord` of the panel.
unfoldable pub add_force : String → List ForceRow → ℕ → List ForceRow × ℕ
unfolding make_force_row
add_force name forces sequence =
    let (row, next) = make_force_row name "" sequence in (forces ++ row ∷ [], next)

unfoldable pub add_record : String → List ScriptRow → ℕ → List ScriptRow × ℕ
unfolding make_script_row last_cycle
add_record name records sequence =
    let (row, next) = make_script_row name (last_cycle records + 1) "" sequence in
    (records ++ row ∷ [], next)

-- `patchForce` and `patchScript`; the function sets the fields that the panel merges in.
unfoldable pub patch_force : String → (ForceRow → ForceRow) → List ForceRow → List ForceRow
patch_force id patch forces =
    map (λ (row : ForceRow). if row.id == id then patch row else row) forces

unfoldable pub patch_script : String → (ScriptRow → ScriptRow) → List ScriptRow → List ScriptRow
patch_script id patch records =
    map (λ (row : ScriptRow). if row.id == id then patch row else row) records

-- The buttons that remove a row.
unfoldable pub remove_force : String → List ForceRow → List ForceRow
remove_force id forces = filter (λ (row : ForceRow). not (row.id == id)) forces
