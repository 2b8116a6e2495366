-- ===== src/Tests/Devices.antt =====
-- Runs of the theorems on stations, on the block editor and on the shell.
use veristc.Prelude.{
  ℕ, suc, ◌≡◌, refl, arith, eq_iff, nat_beq, String, Bool, true, false, none, some, [], ◌∷◌, ◌++◌,
  In, inl, inr, Nodup, List, or_else, All, ◌⊎◌,
}
use veristc.Station.Types.{ModuleView, ExternalVarRow}
use veristc.Station.Board.{order, lanes}
use veristc.Station.Coverage.{lanes-shows}
use veristc.Blocks.Types.{BlockPort, Snapshot}
use veristc.Blocks.History.{BlockEditor, undo, redo, edit_text, timer_fires}
use veristc.Blocks.Pushing.{IsHistory}
use veristc.Blocks.Undoing.{undo_drops_text}
use veristc.Blocks.Symbols.{symbol_names, port_map}
use veristc.Blocks.Distinct.{port_map-Nodup}
use veristc.Shell.Shortcuts.{KeyEvent, ShortcutBinding, EditAction, on_key, edit_bindings}
use veristc.Shell.Keys.{Fits, on_key-first}
use veristc.Shell.EventBus.{EventName, Bus, handlers, on, off}
use veristc.Shell.Delivery.{off-on}
use veristc.Tests.Samples.{one}

abbrev pub a_row : String → ExternalVarRow
a_row name = record {
  name = name;
  direction = "input";
  st_type = "REAL";
  io_kind = "AI";
  description = "";
  enabled = true;
  mapped = true;
  channel = none;
  module_id = none;
  point_name = "";
  unit = "";
  has_quality = false;
  scale = one;
  bias = one;
  safety_min = none;
  safety_max = none;
  fault_hold = "";
  preset_value = none;
  signal_type = "";
}

abbrev a_module : ModuleView
a_module = record {
  module_id = "m1";
  kind = "AI";
  first_channel = 0;
  channel_count = 1;
  last_channel = 15;
  label = "M1";
  channel_list =
      record {
        channel = 0;
        var_name = some "T1";
        bound = true;
        name = "";
        signal_type = "";
        enabled = true;
      }
      ∷ [];
}

lanes-shows_example :
    In "T2" (order (lanes (λ s. s) (a_module ∷ []) (("T1", a_row "T1") ∷ ("T2", a_row "T2") ∷ [])))
lanes-shows_example =
    lanes-shows (λ s. s) (a_module ∷ []) (("T1", a_row "T1") ∷ ("T2", a_row "T2") ∷ []) (a_row "T2")
      (inr (inl refl))

abbrev pub titled : String → Snapshot
titled name = record {
  name = name;
  category = "math";
  version = "1";
  description = "";
  author = "";
  block_kind = "FB";
  time_based = false;
  inputs = [];
  outputs = [];
  parameters = [];
  st_template = "";
  icon_svg = "";
  tags_text = "";
}

abbrev an_editor : BlockEditor
an_editor = record {
  fields = titled "b";
  dirty = true;
  history = record { snapshots = titled "a" ∷ titled "b" ∷ titled "c" ∷ []; kept = 2 };
  timer = false;
}

abbrev editor_IsHistory : IsHistory an_editor.history
editor_IsHistory = record { reached = (omega arith, omega arith); bounded = omega arith }

undo_drops_text_example :
    ((timer_fires (undo (edit_text (titled "d") an_editor))).fields ≡ titled "a")
    × ((timer_fires (undo (edit_text (titled "d") an_editor))).history.snapshots
        ≡ titled "a" ∷ titled "a" ∷ [])
    × ((redo (timer_fires (undo (edit_text (titled "d") an_editor)))).fields ≡ titled "a")
undo_drops_text_example =
    undo_drops_text an_editor (titled "d") (titled "a") editor_IsHistory (omega arith) refl

abbrev block_port : String → BlockPort
block_port name = record {
  name = name;
  direction = "input";
  data_type = "REAL";
  description = "";
  default_value = none;
}

port_map-Nodup_example : Nodup (
    symbol_names
      (port_map "FUN" (block_port "a b" ∷ block_port "a_b" ∷ []) (block_port "a.b" ∷ [])).inputs
    ++ symbol_names
        (port_map "FUN" (block_port "a b" ∷ block_port "a_b" ∷ []) (block_port "a.b" ∷ [])).outputs)
port_map-Nodup_example =
    port_map-Nodup "FUN" (block_port "a b" ∷ block_port "a_b" ∷ []) (block_port "a.b" ∷ [])
      (λ e. absurd (cc ((eq_iff "FUN" "FB").1 e)))

abbrev a_key : KeyEvent
a_key = record { key = "z"; ctrl_key = true; shift_key = true; alt_key = false; tag_name = "DIV" }

on_key-first_example :
    ((on_key (λ s. s) edit_bindings a_key ≡ none)
      × All (λ b. ¬ Fits (λ s. s) a_key b) edit_bindings)
    ⊎ ((pre : List (ShortcutBinding EditAction)) × (b : ShortcutBinding EditAction) × (post : List
          (ShortcutBinding EditAction))
        × (edit_bindings ≡ pre ++ b ∷ post)
        × All (λ c. ¬ Fits (λ s. s) a_key c) pre
        × Fits (λ s. s) a_key b
        × (on_key (λ s. s) edit_bindings a_key ≡ some (b.handler, or_else b.prevent_default false)))
on_key-first_example = on_key-first (λ s. s) edit_bindings a_key

abbrev a_bus : Bus
a_bus = ("page:saved", 4 ∷ []) ∷ []

off-on_example :
    handlers EventName.page_saved (off EventName.page_saved 7 (on EventName.page_saved 7 a_bus))
    ≡ handlers EventName.page_saved a_bus
off-on_example = off-on EventName.page_saved 7 a_bus refl

abbrev adding : ℕ → ℕ → ℕ × Bool
adding h s = (suc s, nat_beq h 2)
