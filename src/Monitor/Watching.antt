-- ===== src/Monitor/Watching.antt =====
-- The state of the monitor page (pages/MonitorPage.tsx). Each handler asks the backend, and goes on when
-- the answer is there. A value of type `any` is a scalar or `null`.
use veristc.Prelude.{String, ◌==◌, Option, List, [], ◌∷◌, ◌++◌, filter, not, Bool}
use veristc.Chart.Types.{Scalar}
use veristc.Monitor.Params.{Variable}

pub record WatchEntry : Type 0 where
  pub id : String
  pub variable_name : String
  pub alias : Option String
  pub display_format : String
  pub enabled : Bool
  pub last_value : Option Scalar
  pub last_update : Option String

pub record MonitorPage : Type 0 where
  pub variables : List Variable
  pub watch_table : List WatchEntry

-- An answer: a body, a status that is no success, or no answer at all.
pub data Answer (A : Type 0) : Type 0 where
  body : A → Answer A
  refused : Answer A
  failed : Answer A

pub data Shown : Type 0 where
  success error : Shown

-- `fetchVariables` and `fetchWatchTable`: an answer without a body changes nothing.
unfoldable pub fetch_variables : Answer (List Variable) → MonitorPage → MonitorPage
fetch_variables (Answer.body rows) s = record s { variables = rows }
fetch_variables Answer.refused s = s
fetch_variables Answer.failed s = s

unfoldable pub fetch_watch_table : Answer (List WatchEntry) → MonitorPage → MonitorPage
fetch_watch_table (Answer.body rows) s = record s { watch_table = rows }
fetch_watch_table Answer.refused s = s
fetch_watch_table Answer.failed s = s

-- `handleAddToWatch` once it is answered: it appends to the table that it was rendered with.
unfoldable pub add_to_watch :
    List WatchEntry → Answer WatchEntry → MonitorPage → MonitorPage × Shown
add_to_watch rendered (Answer.body entry) s =
    (record s { watch_table = rendered ++ entry ∷ [] }, Shown.success)
add_to_watch rendered Answer.refused s = (s, Shown.error)
add_to_watch rendered Answer.failed s = (s, Shown.error)

unfoldable pub remove_from_watch :
    List WatchEntry → String → Answer Unit → MonitorPage → MonitorPage × Shown
remove_from_watch rendered id (Answer.body ok) s = (
  record s { watch_table = filter (λ (e : WatchEntry). not (e.id == id)) rendered },
  Shown.success,
)
remove_from_watch rendered id Answer.refused s = (s, Shown.error)
remove_from_watch rendered id Answer.failed s = (s, Shown.error)

-- `handleForceVariable` and `handleReleaseVariable`: their own answer, then that of the refresh, whose
-- failure is shown.
unfoldable pub force_variable :
    Answer Unit → Answer (List Variable) → MonitorPage → MonitorPage × Shown
force_variable (Answer.body ok) (Answer.body rows) s =
    (record s { variables = rows }, Shown.success)
force_variable (Answer.body ok) Answer.refused s = (s, Shown.success)
force_variable (Answer.body ok) Answer.failed s = (s, Shown.error)
force_variable Answer.refused refresh s = (s, Shown.error)
force_variable Answer.failed refresh s = (s, Shown.error)
