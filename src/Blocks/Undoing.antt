-- ===== src/Blocks/Undoing.antt =====
-- What undo and redo give back (components/library/BlockEditor.tsx).
use veristc.Prelude.{
  ℕ, suc, ◌-◌, ◌≤◌, ◌<◌, ◌≡◌, refl, arith, Bool-cases, Option, none, some, [], ◌∷◌, ◌++◌, Bool,
  true, false, length, take, get_elem?, ltb, lt→ltb, ◌∙◌, if◌then◌else◌, inl, inr, ap,
}
use veristc.Blocks.Types.{Snapshot}
use veristc.Blocks.History.{
  History, limit, push_snapshot, BlockEditor, restore_snapshot, move_index, undo, redo, edit_now,
  edit_unrendered, edit_text, timer_fires,
}
use veristc.Blocks.Pushing.{
  IsHistory, IsPush, push_snapshot-IsPush, push_snapshot-IsHistory, push_room,
}

restore_snapshot-history :
    (o : Option Snapshot) (e : BlockEditor) → (restore_snapshot o e).history ≡ e.history
unfolding restore_snapshot
restore_snapshot-history none e = refl
restore_snapshot-history (some s) e = refl

pub move_index-history :
    (k : ℕ) (e : BlockEditor)
    → (move_index k e).history ≡ record { snapshots = e.history.snapshots; kept = k }
unfolding move_index
move_index-history k e =
    restore_snapshot-history (get_elem? e.history.snapshots (k - 1))
      (record e { history = record e.history { kept = k } })

pub move_index-fields :
    (k : ℕ) (e : BlockEditor) (s : Snapshot)
    → get_elem? e.history.snapshots (k - 1) ≡ some s
    → (move_index k e).fields ≡ s
unfolding move_index restore_snapshot
move_index-fields k e s h = rw h refl

move_index-IsHistory :
    (k : ℕ) (e : BlockEditor)
    → (1 ≤ k) × (k ≤ length e.history.snapshots)
    → IsHistory e.history
    → IsHistory (move_index k e).history
move_index-IsHistory k e b w =
    rw (move_index-history k e) (record { reached = b; bounded = w.bounded })

undo-IsHistory : (e : BlockEditor) → IsHistory e.history → IsHistory (undo e).history
unfolding undo
undo-IsHistory e w = elim (Bool-cases (ltb 1 e.history.kept)) [
  | inl h ↦ rw h (move_index-IsHistory (e.history.kept - 1) e (ground (arith, w.reached)) w)
  | inr h ↦ rw h w
]

redo-IsHistory : (e : BlockEditor) → IsHistory e.history → IsHistory (redo e).history
unfolding redo
redo-IsHistory e w = elim (Bool-cases (ltb e.history.kept (length e.history.snapshots))) [
  | inl h ↦ rw h (move_index-IsHistory (suc e.history.kept) e (ground arith) w)
  | inr h ↦ rw h w
]

timer_fires-IsHistory : (e : BlockEditor) → IsHistory e.history → IsHistory (timer_fires e).history
unfolding timer_fires
timer_fires-IsHistory e w = fires e.timer
  where
    fires :
        (set : Bool)
        → IsHistory
            (if set
              then record e { timer = false; history = push_snapshot e.fields e.history }
              else e).history
    fires true = push_snapshot-IsHistory e.fields e.history w
    fires false = w

-- Undo, redo, edits and the timer of the editor keep the history well formed: its index names one of
-- at most eighty snapshots.
pub history_invariant :
    (e : BlockEditor) (s : Snapshot)
    → IsHistory e.history
    → IsHistory (undo e).history
      × IsHistory (redo e).history
      × IsHistory (edit_now s e).history
      × IsHistory (edit_unrendered s e).history
      × IsHistory (edit_text s e).history
      × IsHistory (timer_fires e).history
unfolding edit_now edit_text edit_unrendered
history_invariant e s w = (
  undo-IsHistory e w,
  redo-IsHistory e w,
  push_snapshot-IsHistory s e.history w,
  push_snapshot-IsHistory e.fields e.history w,
  w,
  timer_fires-IsHistory e w,
)

pub undo_at : (e : BlockEditor) → 1 < e.history.kept → undo e ≡ move_index (e.history.kept - 1) e
unfolding undo
undo_at e h = rw (lt→ltb 1 e.history.kept h) refl

pub redo_at :
    (e : BlockEditor)
    → e.history.kept < length e.history.snapshots
    → redo e ≡ move_index (suc e.history.kept) e
unfolding redo
redo_at e h = rw (lt→ltb e.history.kept (length e.history.snapshots) h) refl

pub redo_none : (e : BlockEditor) → e.history.kept ≡ length e.history.snapshots → redo e ≡ e
unfolding redo
redo_none e h = elim (Bool-cases (ltb e.history.kept (length e.history.snapshots))) [
  | inl c ↦ absurd (ground arith)
  | inr c ↦ rw c refl
]

pub undo_none : (e : BlockEditor) → e.history.kept ≡ 1 → undo e ≡ e
unfolding undo
undo_none e h = elim (Bool-cases (ltb 1 e.history.kept)) [
  | inl c ↦ absurd (ground arith)
  | inr c ↦ rw c refl
]

-- The two snapshots that undo and redo go between, after a push.
undo_push :
    (e : BlockEditor) (s : Snapshot) (h : History) (t : Snapshot)
    → IsPush s h e.history
    → get_elem? h.snapshots (h.kept - 1) ≡ some t
    → ((undo e).fields ≡ t) × ((redo (undo e)).fields ≡ s)
undo_push e s h t p before =
    let k : ℕ = e.history.kept - 1 in
    let f : BlockEditor = move_index k e in
    let hist : f.history ≡ record { snapshots = e.history.snapshots; kept = k } =
      move_index-history k e in
    let up : f.history.kept < length f.history.snapshots = rw hist (omega (arith, p.at_end)) in
    let back : suc (e.history.kept - 1) - 1 ≡ e.history.kept - 1 = omega arith in
    rw (undo_at e (omega (arith, p.at_end))) (
      move_index-fields k e t (p.before ∙ before),
      rw (redo_at f up) (move_index-fields (suc f.history.kept) f s (rw (hist, back) p.last)),
    )

-- Undo after an edit gives back the snapshot that the index named before the edit, also when the
-- oldest snapshot made room for the new one; redo then gives the edit back.
pub undo-edit_now :
    (e : BlockEditor) (s t : Snapshot)
    → IsHistory e.history
    → get_elem? e.history.snapshots (e.history.kept - 1) ≡ some t
    → ((undo (edit_now s e)).fields ≡ t) × ((redo (undo (edit_now s e))).fields ≡ s)
unfolding edit_now
undo-edit_now e s t w h =
    undo_push (edit_now s e) s e.history t (push_snapshot-IsPush s e.history w) h

edited_history :
    (k : ℕ) (s : Snapshot) (e : BlockEditor)
    → (move_index k (edit_text s e)).history ≡ record { snapshots = e.history.snapshots; kept = k }
unfolding edit_text
edited_history k s e = move_index-history k (edit_text s e)

abbrev pushed : BlockEditor → BlockEditor
pushed f = record f { timer = false; history = push_snapshot f.fields f.history }

fires_set : (f : BlockEditor) → f.timer ≡ true → timer_fires f ≡ pushed f
unfolding timer_fires
fires_set f set = chosen f.timer set
  where
    chosen : (b : Bool) → b ≡ true → (if b then pushed f else f) ≡ pushed f
    chosen true e = refl
    chosen false e = absurd (ground arith)

restore_snapshot-timer :
    (o : Option Snapshot) (e : BlockEditor) → (restore_snapshot o e).timer ≡ e.timer
unfolding restore_snapshot
restore_snapshot-timer none e = refl
restore_snapshot-timer (some s) e = refl

edited_timer :
    (k : ℕ) (s : Snapshot) (e : BlockEditor) → (move_index k (edit_text s e)).timer ≡ true
unfolding edit_text move_index
edited_timer k s e =
    let g : BlockEditor = edit_text s e in
    restore_snapshot-timer (get_elem? e.history.snapshots (k - 1))
      (record g { history = record e.history { kept = k } })

-- The timer after an undo, in an editor whose fields and history are known.
fires_after :
    (f : BlockEditor) (t : Snapshot)
    → IsHistory f.history
    → f.history.kept < limit
    → f.timer ≡ true
    → f.fields ≡ t
    → ((timer_fires f).fields ≡ t)
      × ((timer_fires f).history.snapshots ≡ take f.history.kept f.history.snapshots ++ t ∷ [])
      × ((redo (timer_fires f)).fields ≡ t)
fires_after f t w b set is =
    let u : BlockEditor = pushed f in
    rw (fires_set f set) (
      is,
      push_room f.fields f.history w b
          ∙ ap (λ s. take f.history.kept f.history.snapshots ++ s ∷ []) is,
      ap (λ (e : BlockEditor). e.fields)
            (redo_none u (push_snapshot-IsPush f.fields f.history w).at_end.0)
          ∙ is,
    )

edited_fields :
    (k : ℕ) (s : Snapshot) (e : BlockEditor) (t : Snapshot)
    → get_elem? e.history.snapshots (k - 1) ≡ some t
    → (move_index k (edit_text s e)).fields ≡ t
unfolding edit_text
edited_fields k s e t h = move_index-fields k (edit_text s e) t h

undo_text :
    (s : Snapshot) (e : BlockEditor)
    → 1 < e.history.kept
    → undo (edit_text s e) ≡ move_index (e.history.kept - 1) (edit_text s e)
unfolding edit_text
undo_text s e h = undo_at (edit_text s e) h

-- A text that is undone before its timer has run out is lost: undo leaves the history without it, and
-- the timer then drops every snapshot that could be redone.
pub undo_drops_text :
    (e : BlockEditor) (s t : Snapshot)
    → IsHistory e.history
    → 1 < e.history.kept
    → get_elem? e.history.snapshots (e.history.kept - 1 - 1) ≡ some t
    → (let u : BlockEditor = timer_fires (undo (edit_text s e)) in
        (u.fields ≡ t)
        × (u.history.snapshots ≡ take (e.history.kept - 1) e.history.snapshots ++ t ∷ [])
        × ((redo u).fields ≡ t))
undo_drops_text e s t w two h =
    let k : ℕ = e.history.kept - 1 in
    let f : BlockEditor = move_index k (edit_text s e) in
    let hist : f.history ≡ record { snapshots = e.history.snapshots; kept = k } =
      edited_history k s e in
    let well : IsHistory f.history =
      rw hist (record { reached = (omega arith, omega (arith, w.reached)); bounded = w.bounded }) in
    let low : f.history.kept < limit = rw hist (omega (arith, w.reached, w.bounded)) in
    let done = fires_after f t well low (edited_timer k s e) (edited_fields k s e t h) in
    rw (undo_text s e two)
      (done.0, done.1 ∙ ap (λ (g : History). take g.kept g.snapshots ++ t ∷ []) hist, done.2)
