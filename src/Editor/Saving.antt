-- ===== src/Editor/Saving.antt =====
-- What the save timer guarantees, and what it does not (pages/GraphEditorPage.tsx).
use veristc.Prelude.{
  ℕ, String, eq_refl, ◌≡◌, refl, Option, none, some, List, [], ◌∷◌, ◌++◌, Bool, true, false, insert,
  lookup, lookup-insert, All, All-append, All-mono, All-split, ◌⊎◌, inl, inr, ◌≤◌, ◌<◌, nat_beq,
  if◌then◌else◌, arith, sym, subst,
}
use veristc.Chart.Types.{PageDoc}
use veristc.Editor.Session.{
  SaveRequest, Session, Mutation, next_timer, put_page, send, save_effect, patch, fire, answer,
  refuse, select_tab, loaded, mutated, touched,
}

-- No request is of a later revision than the page, and one of its revision carries the page itself,
-- or finds the page clean.
abbrev pub IsCurrent : Session → SaveRequest → Type 0
IsCurrent s r = (r.target ≤ s.rev) × (r.target ≡ s.rev → (s.page ≡ some r.doc) ⊎ (s.dirty ≡ false))

-- So for the timer that is set and for all requests that are out.
abbrev pub Pending : Session → Option SaveRequest → Type 0
Pending s none = Unit
Pending s (some r) = IsCurrent s r

pub record IsFaithful (s : Session) : Type 0 where
  pub pending : Pending s s.timer
  pub sent : All (IsCurrent s) s.in_flight

-- The steps of a session. A switch to another sheet is taken with the answer to it, no edit between.
pub data Step (s : Session) : Session → Type 0 where
  edited : (mutate : Mutation) → Step s (patch mutate s)
  fired : Step s (fire s)
  answered :
      (before : List SaveRequest) (r : SaveRequest) (after : List SaveRequest)
      → s.in_flight ≡ before ++ r ∷ after
      → Step s (answer r (before ++ after) s)
  refused :
      (before : List SaveRequest) (r : SaveRequest) (after : List SaveRequest)
      → s.in_flight ≡ before ++ r ∷ after
      → Step s (refuse (before ++ after) s)
  switched : (id : String) (doc : PageDoc) → Step s (loaded id doc (select_tab s))

older : (s t : Session) → s.rev < t.rev → (r : SaveRequest) → IsCurrent s r → IsCurrent t r
older s t h r c = (omega arith, λ e. absurd (omega arith))

next_timer-Pending :
    (s : Session) (page : Option PageDoc) (dirty : Bool)
    → s.page ≡ page
    → Pending s (next_timer page dirty s.rev)
unfolding next_timer
next_timer-Pending s none dirty e = tt
next_timer-Pending s (some doc) true e = (omega arith, λ _. inl e)
next_timer-Pending s (some doc) false e = tt

put_page-IsFaithful :
    (page : Option PageDoc) (s : Session) → IsFaithful s → IsFaithful (put_page page (touched s))
unfolding put_page
put_page-IsFaithful none s f = record {
  pending = touched-Pending s.timer f.pending;
  sent = All-mono (older s (touched s) (omega arith)) s.in_flight f.sent;
}
  where
    touched-Pending : (o : Option SaveRequest) → Pending s o → Pending (touched s) o
    touched-Pending none h = tt
    touched-Pending (some r) h = older s (touched s) (omega arith) r h
put_page-IsFaithful (some doc) s f =
    let t : Session = save_effect (record (touched s) { page = some doc }) in
    record {
      pending = next_timer-Pending t (some doc) true refl;
      sent = All-mono (older s t (omega arith)) s.in_flight f.sent;
    }

send-IsFaithful :
    (o : Option SaveRequest) (s : Session) → Pending s o → IsFaithful s → IsFaithful (send o s)
unfolding send
send-IsFaithful none s p f = f
send-IsFaithful (some r) s p f = record {
  pending = tt;
  sent = All-append (IsCurrent s) s.in_flight (r ∷ []) f.sent (p, tt);
}

-- An answer leaves the page and its revision, and makes nothing dirty.
cleaned :
    (before dirty : Bool) (rev target : ℕ)
    → before ≡ false
    → (if nat_beq rev target then false else before) ≡ false
cleaned before dirty rev target h = ground arith

answer-IsFaithful :
    (s : Session) (r : SaveRequest) (rest : List SaveRequest)
    → Pending s s.timer
    → All (IsCurrent s) rest
    → IsFaithful (answer r rest s)
unfolding answer
answer-IsFaithful s r rest p h = record { pending = later s.timer p; sent = All-mono keep rest h }
  where
    keep : (q : SaveRequest) → IsCurrent s q → IsCurrent (answer r rest s) q
    keep q c = (c.0, λ e. ground (arith, c.1 e))

    later : (o : Option SaveRequest) → Pending s o → Pending (answer r rest s) o
    later none c = tt
    later (some q) c = keep q c

refuse-IsFaithful :
    (s : Session) (rest : List SaveRequest)
    → Pending s s.timer
    → All (IsCurrent s) rest
    → IsFaithful (refuse rest s)
unfolding refuse
refuse-IsFaithful s rest p h = record { pending = later s.timer p; sent = All-mono keep rest h }
  where
    keep : (q : SaveRequest) → IsCurrent s q → IsCurrent (refuse rest s) q
    keep q c = (c.0, c.1)

    later : (o : Option SaveRequest) → Pending s o → Pending (refuse rest s) o
    later none c = tt
    later (some q) c = keep q c

switched-IsFaithful :
    (s : Session) (id : String) (doc : PageDoc)
    → IsFaithful s
    → IsFaithful (loaded id doc (select_tab s))
unfolding loaded select_tab save_effect next_timer
switched-IsFaithful s id doc f = record {
  pending = tt;
  sent = All-mono (λ q c. (c.0, λ e. inr refl)) s.in_flight f.sent;
}

-- At every step of a session, the save timer and the requests that are out carry the page as it is, if
-- they are of its revision and the page has edits.
pub Step-IsFaithful : {s t : Session} → Step s t → IsFaithful s → IsFaithful t
unfolding patch fire
Step-IsFaithful {s} (edited mutate) f = put_page-IsFaithful (mutated mutate s.page) s f
Step-IsFaithful {s} fired f = send-IsFaithful s.timer s f.pending f
Step-IsFaithful {s} (answered before r after e) f =
    answer-IsFaithful s r (before ++ after) f.pending
      (All-split (IsCurrent s) before r after (subst (All (IsCurrent s)) e f.sent)).1
Step-IsFaithful {s} (refused before r after e) f =
    refuse-IsFaithful s (before ++ after) f.pending
      (All-split (IsCurrent s) before r after (subst (All (IsCurrent s)) e f.sent)).1
Step-IsFaithful {s} (switched id doc) f = switched-IsFaithful s id doc f

pub data Reach (s : Session) : Session → Type 0 where
  here : Reach s s
  next : {t u : Session} → Reach s t → Step t u → Reach s u

Reach-IsFaithful : {s t : Session} → IsFaithful s → Reach s t → IsFaithful t
Reach-IsFaithful f here = f
Reach-IsFaithful f (next r step) = Step-IsFaithful step (Reach-IsFaithful f r)

start-IsFaithful : (s : Session) → s.timer ≡ none → s.in_flight ≡ [] → IsFaithful s
start-IsFaithful s ht hf = record {
  pending = subst (Pending s) (sym ht) tt;
  sent = subst (All (IsCurrent s)) (sym hf) tt;
}

-- A page with edits that an answer makes clean is at the revision of the request.
at_target :
    (rev target : ℕ) (dirty : Bool)
    → dirty ≡ true
    → (if nat_beq rev target then false else dirty) ≡ false
    → target ≡ rev
at_target rev target dirty hd hc = ground arith

saved_page :
    (s : Session) (r : SaveRequest)
    → IsCurrent s r
    → s.dirty ≡ true
    → r.target ≡ s.rev
    → s.page ≡ some r.doc
saved_page s r c hd e = the_page (c.1 e)
  where
    the_page : (s.page ≡ some r.doc) ⊎ (s.dirty ≡ false) → s.page ≡ some r.doc
    the_page (inl h) = h
    the_page (inr h) = absurd (ground arith)

insert_here :
    (doc : PageDoc) (m : List (String × PageDoc))
    → lookup doc.page.id (insert doc.page.id doc m) ≡ some doc
insert_here doc m = ground (arith, lookup-insert doc.page.id doc.page.id doc m, eq_refl doc.page.id)

-- When an answer takes the mark of unsaved edits from a page, the sidecar holds that very page at that
-- moment: in every session that is reached from one without requests and without a timer.
pub answer_clean-saved :
    (s t : Session) (before : List SaveRequest) (r : SaveRequest) (after : List SaveRequest)
    → s.timer ≡ none
    → s.in_flight ≡ []
    → Reach s t
    → t.in_flight ≡ before ++ r ∷ after
    → t.dirty ≡ true
    → (answer r (before ++ after) t).dirty ≡ false
    → (t.page ≡ some r.doc)
      × (lookup r.doc.page.id (answer r (before ++ after) t).server ≡ some r.doc)
unfolding answer
answer_clean-saved s t before r after ht hf reach e dirty clean =
    let faithful : IsFaithful t = Reach-IsFaithful (start-IsFaithful s ht hf) reach in
    let current : IsCurrent t r =
      (All-split (IsCurrent t) before r after (subst (All (IsCurrent t)) e faithful.sent)).0 in
    (
      saved_page t r current dirty (at_target t.rev r.target t.dirty dirty clean),
      insert_here r.doc t.server,
    )

-- A switch to another sheet that is answered before the save timer has run out loses the edit: no
-- request that goes out then or later carries it, and the sidecar is as it was.
pub switch_drops_edit :
    (s : Session) (mutate : Mutation) (id : String) (other : PageDoc)
    → (let t : Session = loaded id other (select_tab (patch mutate s)) in
        (t.timer ≡ none)
        × (t.in_flight ≡ s.in_flight)
        × (t.server ≡ s.server)
        × (t.page ≡ some other))
unfolding patch put_page save_effect next_timer loaded select_tab
switch_drops_edit s mutate id other = drops (mutated mutate s.page)
  where
    drops :
        (page : Option PageDoc)
        → (let t : Session = loaded id other (select_tab (put_page page (touched s))) in
            (t.timer ≡ none)
            × (t.in_flight ≡ s.in_flight)
            × (t.server ≡ s.server)
            × (t.page ≡ some other))
    drops none = (refl, refl, refl, refl)
    drops (some doc) = (refl, refl, refl, refl)
