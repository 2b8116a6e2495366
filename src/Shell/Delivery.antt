-- ===== src/Shell/Delivery.antt =====
-- Which handlers an event reaches (lib/eventBus.ts).
use veristc.Prelude.{
  ℕ, nat_beq, ◌≤◌, Option-cases, ◌≡◌, ◌≢◌, ◌∙◌, refl, ap, arith, Bool-cases, inl, inr,
  if◌then◌else◌, String, ◌==◌, eq_refl, true, false, or_else, List, [], ◌∷◌, ◌++◌, any, count_p,
  count_p-append, lookup, insert, lookup-insert, eq_false,
}
use veristc.Shell.EventBus.{
  EventName, event_text, Bus, handlers, add, delete, on, off, run_handlers, Effect,
}

or_else_if :
    (k j : String) (set : List ℕ) (bus : Bus)
    → or_else (lookup j (insert k set bus)) [] ≡ (if k == j then set else or_else (lookup j bus) [])
or_else_if k j set bus = elim (Bool-cases (k == j)) [
  | inl e ↦ rw (lookup-insert k j set bus, e) refl
  | inr e ↦ rw (lookup-insert k j set bus, e) refl
]

-- The handlers of an event after one is registered or taken off, for that event and for the others.
handlers-on :
    (event other : EventName) (h : ℕ) (bus : Bus)
    → handlers other (on event h bus) ≡ (
        if event_text event == event_text other
        then add h (handlers event bus)
        else handlers other bus)
unfolding on
handlers-on event other h bus =
    or_else_if (event_text event) (event_text other) (add h (handlers event bus)) bus

handlers-on_same :
    (event : EventName) (h : ℕ) (bus : Bus)
    → handlers event (on event h bus) ≡ add h (handlers event bus)
handlers-on_same event h bus = handlers-on event event h bus ∙ rw (eq_refl (event_text event)) refl

handlers-on_other :
    (event other : EventName) (h : ℕ) (bus : Bus)
    → event_text event ≢ event_text other
    → handlers other (on event h bus) ≡ handlers other bus
handlers-on_other event other h bus d =
    handlers-on event other h bus ∙ rw (eq_false (event_text event) (event_text other) d) refl

handlers-off :
    (event : EventName) (h : ℕ) (bus : Bus)
    → handlers event (off event h bus) ≡ delete h (handlers event bus)
unfolding off
handlers-off event h bus = elim (Option-cases (lookup (event_text event) bus)) [
  | inl e ↦ rw (e, e) refl
  | inr (set, e) ↦ rw e (
      or_else_if (event_text event) (event_text event) (delete h set) bus
      ∙ rw (eq_refl (event_text event)) refl)
]

count_p-any : (h : ℕ) (set : List ℕ) → any (nat_beq h) set ≡ false → count_p (nat_beq h) set ≡ 0
count_p-any h [] e = refl
count_p-any h (x ∷ set) e = ground (arith, count_p-any h set)

any-count_p : (h : ℕ) (set : List ℕ) → any (nat_beq h) set ≡ true → 1 ≤ count_p (nat_beq h) set
any-count_p h [] e = absurd (cc e)
any-count_p h (x ∷ set) e = ground (arith, any-count_p h set)

count_p-add :
    (h : ℕ) (set : List ℕ) → count_p (nat_beq h) set ≤ 1 → count_p (nat_beq h) (add h set) ≡ 1
count_p-add h set one = elim (Bool-cases (any (nat_beq h) set)) [
  | inl e ↦ rw e (omega (arith, any-count_p h set e))
  | inr e ↦ rw e (ground (arith, count_p-append (nat_beq h) set (h ∷ []), count_p-any h set e))
]

-- The set of an event holds a handler at most once, and this stays so.
count_on :
    (event : EventName) (h : ℕ) (bus : Bus)
    → count_p (nat_beq h) (handlers event bus) ≤ 1
    → count_p (nat_beq h) (handlers event (on event h bus)) ≡ 1
count_on event h bus one =
    rw (handlers-on_same event h bus) (count_p-add h (handlers event bus) one)

-- A handler that is registered on an event, once or twice, is called exactly once when the event is
-- emitted, if it was called at most once before; the events of other names reach the handlers that
-- they reached before.
pub on-once :
    (event other : EventName) (h : ℕ) (bus : Bus)
    → count_p (nat_beq h) (handlers event bus) ≤ 1
    → event_text event ≢ event_text other
    → (count_p (nat_beq h) (handlers event (on event h bus)) ≡ 1)
      × (count_p (nat_beq h) (handlers event (on event h (on event h bus))) ≡ 1)
      × (handlers other (on event h bus) ≡ handlers other bus)
on-once event other h bus one distinct = (
  count_on event h bus one,
  count_on event h (on event h bus) (omega (arith, count_on event h bus one)),
  handlers-on_other event other h bus distinct,
)

delete-none : (h : ℕ) (set : List ℕ) → any (nat_beq h) set ≡ false → delete h set ≡ set
delete-none h [] e = refl
delete-none h (x ∷ set) e = elim (Bool-cases (nat_beq h x)) [
  | inl c ↦ absurd (ground arith)
  | inr c ↦ rw c (ap (x ∷◌) (delete-none h set (ground arith)))
]

delete-last : (h : ℕ) (set : List ℕ) → any (nat_beq h) set ≡ false → delete h (set ++ h ∷ []) ≡ set
delete-last h [] e = elim (Bool-cases (nat_beq h h)) [
  | inl c ↦ rw c refl
  | inr c ↦ absurd (ground arith)
]
delete-last h (x ∷ set) e = elim (Bool-cases (nat_beq h x)) [
  | inl c ↦ absurd (ground arith)
  | inr c ↦ rw c (ap (x ∷◌) (delete-last h set (ground arith)))
]

-- What `on` returns takes back a registration: an event reaches the handlers that it reached before a
-- handler that is not among them was registered and taken off.
pub off-on :
    (event : EventName) (h : ℕ) (bus : Bus)
    → any (nat_beq h) (handlers event bus) ≡ false
    → handlers event (off event h (on event h bus)) ≡ handlers event bus
off-on event h bus fresh =
    handlers-off event h (on event h bus)
    ∙ ap (delete h) (handlers-on_same event h bus)
    ∙ rw fresh (delete-last h (handlers event bus) fresh)

-- A handler that throws stops no other: emitting to the handlers of `front` and then to those of
-- `back` is emitting to all, and the errors are logged in the order of the calls.
pub run_handlers-append :
    {S : Type 0} (effect : Effect S) (front back : List ℕ) (s : S)
    → run_handlers effect (front ++ back) s ≡ (
        let (t, logged) = run_handlers effect front s in
        let (u, more) = run_handlers effect back t in (u, logged ++ more))
unfolding run_handlers
run_handlers-append effect [] back s = refl
run_handlers-append effect (h ∷ front) back s = elim (Bool-cases (effect h s).1) [
  | inl e ↦ rw (run_handlers-append effect front back (effect h s).0, e) refl
  | inr e ↦ rw (run_handlers-append effect front back (effect h s).0, e) refl
]
