-- ===== src/Shell/EventBus.antt =====
-- The bus between pages (lib/eventBus.ts). A handler is named by a number, and its effect on the state
-- of its page is a parameter; it may throw. While one event is emitted, no handler comes or goes.
use veristc.Prelude.{
  ℕ, nat_beq, if◌then◌else◌, String, Bool, not, Option, none, some, or_else, List, [], ◌∷◌, ◌++◌,
  filter, any, lookup, insert,
}

-- The keys of `EventMap`.
pub data EventName : Type 0 where
  bindings_changed project_updated station_saved module_added module_removed : EventName
  page_saved compile_result menu_open_panel : EventName

abbrev pub event_text : EventName → String
event_text bindings_changed = "bindings:changed"
event_text project_updated = "project:updated"
event_text station_saved = "station:saved"
event_text module_added = "module:added"
event_text module_removed = "module:removed"
event_text page_saved = "page:saved"
event_text compile_result = "compile:result"
event_text menu_open_panel = "menu:openPanel"

-- The map of sets: a set keeps the order in which its handlers came.
abbrev pub Bus : Type 0
Bus = List (String × List ℕ)

abbrev pub handlers : EventName → Bus → List ℕ
handlers event bus = or_else (lookup (event_text event) bus) []

abbrev pub add : ℕ → List ℕ → List ℕ
add handler set = if any (nat_beq handler) set then set else set ++ handler ∷ []

abbrev pub delete : ℕ → List ℕ → List ℕ
delete handler set = filter (λ h. not (nat_beq handler h)) set

unfoldable pub on : EventName → ℕ → Bus → Bus
on event handler bus = insert (event_text event) (add handler (handlers event bus)) bus

-- An event without a set has nothing to delete from.
unfoldable pub off : EventName → ℕ → Bus → Bus
off event handler bus = delete_in (lookup (event_text event) bus)
  where
    delete_in : Option (List ℕ) → Bus
    delete_in none = bus
    delete_in (some set) = insert (event_text event) (delete handler set) bus

-- What a handler leaves of the state of the pages, and whether it threw.
abbrev pub Effect : Type 0 → Type 0
Effect S = ℕ → S → S × Bool

module _ {S : Type 0} (effect : Effect S) where
  -- `forEach` with its `try`: the state after all handlers, and how many errors were logged.
  unfoldable pub run_handlers : List ℕ → S → S × List ℕ
  run_handlers [] s = (s, [])
  run_handlers (h ∷ hs) s =
      let (t, threw) = effect h s in
      let (u, logged) = run_handlers hs t in (u, if threw then h ∷ logged else logged)

  unfoldable pub emit : EventName → Bus → S → S × List ℕ
  unfolding run_handlers
  emit event bus s = run_handlers (handlers event bus) s

abbrev pub cleared : Bus
cleared = []
