-- ===== src/Shell/Shortcuts.antt =====
-- Keyboard shortcuts (lib/shortcuts.ts). `toLowerCase` of the browser is a parameter, and so is the
-- type of what a handler does.
use veristc.Prelude.{
  String, ◌==◌, Bool, true, false, ◌&&◌, ◌||◌, not, if◌then◌else◌, Option, none, some, or_else,
  List, [], ◌∷◌,
}

-- The keys held with a key, and the tag of the element that it goes to.
pub record KeyEvent : Type 0 where
  pub key : String
  pub ctrl_key : Bool
  pub shift_key : Bool
  pub alt_key : Bool
  pub tag_name : String

pub record ShortcutBinding (H : Type 0) : Type 0 where
  pub key : String
  pub ctrl : Option Bool
  pub shift : Option Bool
  pub alt : Option Bool
  pub prevent_default : Option Bool
  pub ignore_in_input : Option Bool
  pub handler : H

abbrev pub same_flag : Bool → Bool → Bool
same_flag true b = b
same_flag false b = not b

-- `b.ctrl !== undefined && event.ctrlKey !== b.ctrl` is false.
abbrev pub modifier_ok : Option Bool → Bool → Bool
modifier_ok none held = true
modifier_ok (some wanted) held = same_flag wanted held

abbrev pub in_input : KeyEvent → Bool
in_input e = (e.tag_name == "INPUT") || ((e.tag_name == "TEXTAREA") || (e.tag_name == "SELECT"))

module _ (to_lower : String → String) {H : Type 0} where
  -- No `continue` of the loop is taken.
  abbrev pub is_hit : KeyEvent → ShortcutBinding H → Bool
  is_hit e b =
      (modifier_ok b.ctrl e.ctrl_key
        && (modifier_ok b.shift e.shift_key && modifier_ok b.alt e.alt_key))
      && ((to_lower e.key == to_lower b.key) && not (or_else b.ignore_in_input false && in_input e))

  -- The handler that runs, and whether the browser's own action is prevented.
  unfoldable pub on_key : List (ShortcutBinding H) → KeyEvent → Option (H × Bool)
  on_key [] e = none
  on_key (b ∷ bs) e =
      let rest = on_key bs e in
      if is_hit e b then some (b.handler, or_else b.prevent_default false) else rest

pub data EditAction : Type 0 where
  save undo redo cut copy paste : EditAction

abbrev binding : String → Option Bool → EditAction → ShortcutBinding EditAction
binding key shift action = record {
  key = key;
  ctrl = some true;
  shift = shift;
  alt = none;
  prevent_default = none;
  ignore_in_input = none;
  handler = action;
}

-- The bindings of `useEditShortcuts`.
abbrev pub edit_bindings : List (ShortcutBinding EditAction)
edit_bindings =
    record {
      key = "s";
      ctrl = some true;
      shift = none;
      alt = none;
      prevent_default = some true;
      ignore_in_input = some true;
      handler = EditAction.save;
    }
    ∷ binding "z" (some false) EditAction.undo
    ∷ binding "z" (some true) EditAction.redo
    ∷ binding "y" none EditAction.redo
    ∷ binding "x" none EditAction.cut
    ∷ binding "c" none EditAction.copy
    ∷ binding "v" none EditAction.paste
    ∷ []
