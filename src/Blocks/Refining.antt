-- ===== src/Blocks/Refining.antt =====
-- The history of the block editor (components/library/BlockEditor.tsx) against its description as a
-- zipper.
use veristc.Prelude.{
  ℕ, zero, suc, ◌+◌, ◌-◌, ◌≤◌, ◌<◌, ◌≡◌, refl, ap, sym, subst, ◌∙◌, arith, Bool-cases, true, false,
  List, [], ◌∷◌, ◌++◌, length, take, get_elem?, ltb, inl, inr,
}
use veristc.Blocks.Types.{Snapshot}
use veristc.Blocks.History.{
  History, limit, trimmed, push_snapshot, BlockEditor, undo, redo, edit_now, edit_text, timer_fires,
  opened, move_index,
}
use veristc.Blocks.Pushing.{length-take}
use veristc.Blocks.Undoing.{
  move_index-history, move_index-fields, undo_at, redo_at, redo_none, undo_none,
}
use veristc.Blocks.Zipper.{
  Zipper, past_limit, change, back, forth, rev_onto, length-rev_onto, rev_onto-append,
  get_elem?-rev_onto, take-rev_onto, drop-rev_onto,
}

-- The snapshots are those of the zipper in the order of time, and the index names its present one.
pub record Refines (h : History) (z : Zipper) : Type 0 where
  pub snapshots : h.snapshots ≡ rev_onto z.past (z.present ∷ z.future)
  pub kept : h.kept ≡ suc (length z.past)
  pub bounded : length z.past + length z.future ≤ past_limit

take-all : (n : ℕ) (xs : List Snapshot) → length xs ≤ n → take n xs ≡ xs
take-all zero [] h = refl
take-all zero (x ∷ xs) h = absurd (omega arith)
take-all (suc n) [] h = refl
take-all (suc n) (x ∷ xs) h = ap (x ∷◌) (take-all n xs (omega arith))

length-take-le : (n : ℕ) (xs : List Snapshot) → length (take n xs) ≤ n
length-take-le zero xs = omega arith
length-take-le (suc n) [] = omega arith
length-take-le (suc n) (x ∷ xs) = omega (arith, length-take-le n xs)

-- The snapshots before the limit is applied.
pushed_snapshots :
    (s : Snapshot) (h : History) (z : Zipper)
    → Refines h z
    → take h.kept h.snapshots ++ s ∷ [] ≡ rev_onto (z.present ∷ z.past) (s ∷ [])
pushed_snapshots s h z r =
    let one_more : suc (length z.past) ≡ length z.past + 1 = omega arith in
    rw (r.snapshots, r.kept)
      (ap (λ xs. xs ++ s ∷ [])
          (ap (λ k. take k (rev_onto z.past (z.present ∷ z.future))) one_more
            ∙ take-rev_onto 1 z.past (z.present ∷ z.future))
        ∙ rev_onto-append z.past (z.present ∷ []) (s ∷ []))

trimmed_room :
    (s : Snapshot) (z : Zipper) (kept : ℕ)
    → length z.past < past_limit
    → Refines (trimmed (rev_onto (z.present ∷ z.past) (s ∷ [])) kept) (change s z)
unfolding trimmed
trimmed_room s z kept h =
    let all : take past_limit (z.present ∷ z.past) ≡ z.present ∷ z.past =
      take-all past_limit (z.present ∷ z.past) (omega arith) in
    let size = length-rev_onto (z.present ∷ z.past) (s ∷ []) in
    let short : ltb limit (length (rev_onto (z.present ∷ z.past) (s ∷ []))) ≡ false =
      ground arith in
    rw short (record {
      snapshots = ap (λ past. rev_onto past (s ∷ [])) (sym all);
      kept = omega (arith, size, ap length all);
      bounded = omega (arith, length-take-le past_limit (z.present ∷ z.past));
    })

trimmed_full :
    (s : Snapshot) (z : Zipper)
    → length z.past ≡ past_limit
    → Refines (trimmed (rev_onto (z.present ∷ z.past) (s ∷ [])) 80) (change s z)
unfolding trimmed
trimmed_full s z h =
    let size = length-rev_onto (z.present ∷ z.past) (s ∷ []) in
    let long : ltb limit (length (rev_onto (z.present ∷ z.past) (s ∷ []))) ≡ true = ground arith in
    rw long (record {
      snapshots =
          drop-rev_onto z.present z.past (s ∷ [])
          ∙ ap (λ n. rev_onto (take n (z.present ∷ z.past)) (s ∷ [])) h;
      kept = omega (arith, length-take past_limit (z.present ∷ z.past) (omega arith));
      bounded = omega (arith, length-take-le past_limit (z.present ∷ z.past));
    })

push_snapshot-Refines :
    (s : Snapshot) (h : History) (z : Zipper)
    → Refines h z
    → Refines (push_snapshot s h) (change s z)
unfolding push_snapshot
push_snapshot-Refines s h z r =
    rw (pushed_snapshots s h z r) (elim (Bool-cases (ltb (length z.past) past_limit)) [
      | inl room ↦ trimmed_room s z h.kept (ground arith)
      | inr full ↦
          subst (λ k. Refines (trimmed (rev_onto (z.present ∷ z.past) (s ∷ [])) k) (change s z))
            (ground (arith, r.kept, r.bounded)) (trimmed_full s z (ground (arith, r.bounded)))
    ])

-- What the editor shows and keeps is what the zipper has.
pub record Shows (e : BlockEditor) (z : Zipper) : Type 0 where
  pub fields : e.fields ≡ z.present
  pub history : Refines e.history z

move_index-Shows :
    (k : ℕ) (e : BlockEditor) (z : Zipper)
    → Refines (record { snapshots = e.history.snapshots; kept = k }) z
    → Shows (move_index k e) z
move_index-Shows k e z r = record {
  fields = move_index-fields k e z.present (
      rw (r.snapshots, r.kept)
        (ap (get_elem? (rev_onto z.past (z.present ∷ z.future))) (omega arith)
          ∙ get_elem?-rev_onto 0 z.past (z.present ∷ z.future)));
  history = rw (move_index-history k e) r;
}

undo-Shows :
    (e : BlockEditor) (past : List Snapshot) (present : Snapshot) (future : List Snapshot)
    → Shows e (record { past = past; present = present; future = future })
    → Shows (undo e) (back (record { past = past; present = present; future = future }))
undo-Shows e [] present future w = rw (undo_none e w.history.kept) w
undo-Shows e (s ∷ past) present future w = rw (undo_at e (omega (arith, w.history.kept))) (
    move_index-Shows (e.history.kept - 1) e
      (record { past = past; present = s; future = present ∷ future })
      (record {
        snapshots = w.history.snapshots;
        kept = omega (arith, w.history.kept);
        bounded = omega (arith, w.history.bounded);
      }))

snapshots_length :
    (h : History) (z : Zipper)
    → Refines h z
    → length h.snapshots ≡ suc (length z.past) + length z.future
snapshots_length h z r =
    ap length r.snapshots ∙ omega (arith, length-rev_onto z.past (z.present ∷ z.future))

redo-Shows :
    (e : BlockEditor) (past : List Snapshot) (present : Snapshot) (future : List Snapshot)
    → Shows e (record { past = past; present = present; future = future })
    → Shows (redo e) (forth (record { past = past; present = present; future = future }))
redo-Shows e past present [] w =
    rw (redo_none e (omega (arith, w.history.kept, snapshots_length e.history _ w.history))) w
redo-Shows e past present (s ∷ future) w =
    rw (redo_at e (omega (arith, w.history.kept, snapshots_length e.history _ w.history))) (
      move_index-Shows (suc e.history.kept) e
        (record { past = present ∷ past; present = s; future = future })
        (record {
          snapshots = w.history.snapshots;
          kept = ap suc w.history.kept;
          bounded = omega (arith, w.history.bounded);
        }))

edit_now-Shows :
    (s : Snapshot) (e : BlockEditor) (z : Zipper) → Shows e z → Shows (edit_now s e) (change s z)
unfolding edit_now
edit_now-Shows s e z w = record {
  fields = refl;
  history = push_snapshot-Refines s e.history z w.history;
}

typed-Shows :
    (s : Snapshot) (e : BlockEditor) (z : Zipper)
    → Shows e z
    → Shows (timer_fires (edit_text s e)) (change s z)
unfolding edit_text timer_fires
typed-Shows s e z w = record {
  fields = refl;
  history = push_snapshot-Refines s e.history z w.history;
}

-- What the engineer does to a block, a text only as far as its snapshot is taken before the next
-- command.
pub data Command : Type 0 where
  set typed : Snapshot → Command
  undone redone : Command

abbrev pub run : List Command → BlockEditor → BlockEditor
run [] e = e
run (Command.set s ∷ cs) e = run cs (edit_now s e)
run (Command.typed s ∷ cs) e = run cs (timer_fires (edit_text s e))
run (Command.undone ∷ cs) e = run cs (undo e)
run (Command.redone ∷ cs) e = run cs (redo e)

abbrev pub run_zipper : List Command → Zipper → Zipper
run_zipper [] z = z
run_zipper (Command.set s ∷ cs) z = run_zipper cs (change s z)
run_zipper (Command.typed s ∷ cs) z = run_zipper cs (change s z)
run_zipper (Command.undone ∷ cs) z = run_zipper cs (back z)
run_zipper (Command.redone ∷ cs) z = run_zipper cs (forth z)

run-Shows :
    (cs : List Command) (e : BlockEditor) (z : Zipper)
    → Shows e z
    → Shows (run cs e) (run_zipper cs z)
run-Shows [] e z w = w
run-Shows (Command.set s ∷ cs) e z w = run-Shows cs (edit_now s e) _ (edit_now-Shows s e z w)
run-Shows (Command.typed s ∷ cs) e z w =
    run-Shows cs (timer_fires (edit_text s e)) _ (typed-Shows s e z w)
run-Shows (Command.undone ∷ cs) e z w =
    run-Shows cs (undo e) (back z) (undo-Shows e z.past z.present z.future w)
run-Shows (Command.redone ∷ cs) e z w =
    run-Shows cs (redo e) (forth z) (redo-Shows e z.past z.present z.future w)

opened-Shows : (s : Snapshot) → Shows (opened s) (record { past = []; present = s; future = [] })
unfolding opened push_snapshot trimmed
opened-Shows s = record {
  fields = refl;
  history = record { snapshots = refl; kept = refl; bounded = omega arith };
}

-- After any run of undos, redos, edits that push what they render, and text edits whose timer runs out
-- before the next command, from the opening of a block, the editor shows the present state of a zipper
-- with at most 79 past states that was run through the same commands, and its history holds the
-- zipper's states in the order of time. The edits that push what was rendered before them (category,
-- block kind, symbol reset) are not among these, nor is a command within a text edit's half second.
pub run-refines :
    (cs : List Command) (s : Snapshot)
    → Shows (run cs (opened s)) (run_zipper cs (record { past = []; present = s; future = [] }))
run-refines cs s = run-Shows cs (opened s) _ (opened-Shows s)
