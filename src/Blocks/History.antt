-- ===== src/Blocks/History.antt =====
-- The history of the block editor (components/library/BlockEditor.tsx): snapshots of the edited fields,
-- an index into them, and the timer that puts off a snapshot while text is typed. The index of the
-- source is -1 before the first snapshot; `kept` is that index and one.
use veristc.Prelude.{
  ℕ, suc, ◌-◌, ltb, if◌then◌else◌, Option, none, some, List, [], ◌∷◌, ◌++◌, Bool, true, false,
  length, take, drop, get_elem?,
}
use veristc.Blocks.Types.{Snapshot}

pub record History : Type 0 where
  pub snapshots : List Snapshot
  pub kept : ℕ

-- The snapshots that are kept at most.
abbrev pub limit : ℕ
limit = 80

-- `pushSnapshot`, given the snapshot that it takes.
unfoldable pub trimmed : List Snapshot → ℕ → History
trimmed snapshots kept =
    if ltb limit (length snapshots)
    then record { snapshots = drop 1 snapshots; kept = kept }
    else record { snapshots = snapshots; kept = length snapshots }

unfoldable pub push_snapshot : Snapshot → History → History
unfolding trimmed
push_snapshot snap h = trimmed (take h.kept h.snapshots ++ snap ∷ []) h.kept

-- The editor: the state of its fields, the mark of unsaved edits, and whether the timer is set.
pub record BlockEditor : Type 0 where
  pub fields : Snapshot
  pub dirty : Bool
  pub history : History
  pub timer : Bool

-- `restoreSnapshot`; no snapshot at an index changes nothing here, and the source reads none.
unfoldable pub restore_snapshot : Option Snapshot → BlockEditor → BlockEditor
restore_snapshot none e = e
restore_snapshot (some snap) e = record e { fields = snap; dirty = true }

unfoldable pub move_index : ℕ → BlockEditor → BlockEditor
unfolding restore_snapshot
move_index kept e =
    restore_snapshot (get_elem? e.history.snapshots (kept - 1))
      (record e { history = record e.history { kept = kept } })

unfoldable pub undo : BlockEditor → BlockEditor
unfolding move_index
undo e = if ltb 1 e.history.kept then move_index (e.history.kept - 1) e else e

unfoldable pub redo : BlockEditor → BlockEditor
unfolding move_index
redo e =
    if ltb e.history.kept (length e.history.snapshots) then move_index (suc e.history.kept) e else e

-- An edit that takes its snapshot at once, as those of lists do.
unfoldable pub edit_now : Snapshot → BlockEditor → BlockEditor
unfolding push_snapshot
edit_now snap e = record e { fields = snap; dirty = true; history = push_snapshot snap e.history }

-- An edit that takes its snapshot before the fields are rendered: of the category, the language and
-- the reset of the symbol. The snapshot is of the fields before the edit.
unfoldable pub edit_unrendered : Snapshot → BlockEditor → BlockEditor
unfolding push_snapshot
edit_unrendered snap e = record e {
  fields = snap;
  dirty = true;
  history = push_snapshot e.fields e.history;
}

-- An edit of a text: `markDirty` and `debouncedPush`.
unfoldable pub edit_text : Snapshot → BlockEditor → BlockEditor
edit_text snap e = record e { fields = snap; dirty = true; timer = true }

-- The timer of half a second runs out.
unfoldable pub timer_fires : BlockEditor → BlockEditor
unfolding push_snapshot
timer_fires e =
    if e.timer then record e { timer = false; history = push_snapshot e.fields e.history } else e

-- The editor of a block that was opened.
unfoldable pub opened : Snapshot → BlockEditor
unfolding push_snapshot
opened snap = record {
  fields = snap;
  dirty = false;
  history = push_snapshot snap (record { snapshots = []; kept = 0 });
  timer = false;
}
