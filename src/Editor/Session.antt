-- ===== src/Editor/Session.antt =====
-- The open sheet and its way to the sidecar (pages/GraphEditorPage.tsx): the state of the page, the
-- save timer and the requests that are out. The sidecar is a store of documents by page id: a PUT
-- stores one, as it was sent (the sidecar's rewriting of the page's index and name is left out) and at
-- the time of its answer, and a GET answers with some document. A mutation gives `none` where the source returns
-- the document that it was given, and React then runs no effect.
use veristc.Prelude.{
  ℕ, suc, String, if◌then◌else◌, nat_beq, Option, none, some, List, [], ◌∷◌, ◌++◌, Bool, true,
  false, insert,
}
use veristc.Chart.Types.{PageDoc, Selection}

pub record SaveRequest : Type 0 where
  pub doc : PageDoc
  pub target : ℕ

pub record Session : Type 0 where
  pub page : Option PageDoc
  pub page_id : String
  pub selected : Option Selection
  -- The refs `dirty` and `rev`.
  pub dirty : Bool
  pub rev : ℕ
  pub analysis_stale : Bool
  pub sim_stale : Bool
  -- The save timer that is set, and the PUT requests that no answer came to yet.
  pub timer : Option SaveRequest
  pub in_flight : List SaveRequest
  pub server : List (String × PageDoc)

abbrev pub Mutation : Type 0
Mutation = PageDoc → Option PageDoc

-- The effect that saves, when the page has changed: the timer that was set is cleared, and a new one
-- is set for a page with edits.
unfoldable pub next_timer : Option PageDoc → Bool → ℕ → Option SaveRequest
next_timer none dirty rev = none
next_timer (some doc) true rev = some (record { doc = doc; target = rev })
next_timer (some doc) false rev = none

unfoldable pub save_effect : Session → Session
unfolding next_timer
save_effect s = record s { timer = next_timer s.page s.dirty s.rev }

abbrev pub touched : Session → Session
touched s = record s { dirty = true; rev = suc s.rev; analysis_stale = true; sim_stale = true }

abbrev pub mutated : Mutation → Option PageDoc → Option PageDoc
mutated mutate none = none
mutated mutate (some doc) = mutate doc

-- The new page of a session that is marked as edited; without one no effect runs.
unfoldable pub put_page : Option PageDoc → Session → Session
unfolding save_effect
put_page none s = s
put_page (some doc) s = save_effect (record s { page = some doc })

unfoldable pub patch : Mutation → Session → Session
unfolding put_page
patch mutate s = put_page (mutated mutate s.page) (touched s)

-- The timer runs out: the request goes out.
unfoldable pub send : Option SaveRequest → Session → Session
send none s = s
send (some request) s = record s { timer = none; in_flight = s.in_flight ++ request ∷ [] }

unfoldable pub fire : Session → Session
unfolding send
fire s = send s.timer s

-- The sidecar stores a document and answers: the page is clean if it was not edited since.
unfoldable pub answer : SaveRequest → List SaveRequest → Session → Session
answer request rest s = record s {
  in_flight = rest;
  server = insert request.doc.page.id request.doc s.server;
  dirty = if nat_beq s.rev request.target then false else s.dirty;
}

-- The sidecar refuses it, or does not answer.
unfoldable pub refuse : List SaveRequest → Session → Session
refuse rest s = record s { in_flight = rest }

-- A click on the tab of another sheet asks for its document; what the answer does is `loaded`.
unfoldable pub select_tab : Session → Session
select_tab s = record s { dirty = false }

unfoldable pub loaded : String → PageDoc → Session → Session
unfolding save_effect
loaded id doc s = save_effect (record s { page = some doc; page_id = id; selected = none })
