-- ===== src/Station/Refreshing.antt =====
-- How the device page reads its station again (`refresh`, pages/DevicePage.tsx): five answers in a row,
-- all of which must come before anything is shown.
use veristc.Prelude.{
  ◌≡◌, refl, String, ◌==◌, eq_refl, if◌then◌else◌, Option, none, some, List, [], ◌∷◌, ◌++◌, any,
  map, filter, length, ℕ, ◌-◌, contains, Bool, true, false, not, arith, Bool-cases, inl, inr,
}
use veristc.Station.Types.{StationRow, ModuleView, ExternalVarRow, ValidationIssue}

pub record DeviceView : Type 0 where
  pub stations : List StationRow
  pub station_id : String
  pub modules : List ModuleView
  pub points : List ExternalVarRow
  pub issues : List ValidationIssue
  pub st_preview : String
  pub offline : Bool

-- The station that is read: the one that is asked for, if there is one of that id, or the first.
abbrev pub first_station : List StationRow → String
first_station [] = ""
first_station (row ∷ rows) = row.station_id

unfoldable pub active_station : List StationRow → String → String
active_station stations id =
    if any (λ (row : StationRow). row.station_id == id) stations then id else first_station stations

-- The four answers about the active station.
pub record StationAnswers : Type 0 where
  pub modules : List ModuleView
  pub points : List ExternalVarRow
  pub errors : List ValidationIssue
  pub warnings : List ValidationIssue
  pub st_text : String

-- `refresh`: what the list of stations came back as, and the answers about a station of an id, `none`
-- for one that failed.
unfoldable pub refresh :
    Option (List StationRow) → (String → Option StationAnswers) → String → DeviceView → DeviceView
unfolding active_station
refresh none answers id v = if id == "" then v else record v { offline = true }
refresh (some stations) answers id v =
    let active : String = active_station stations id in
    if id == "" then v else elim (answers active) [
      | none ↦ record v { offline = true }
      | some a ↦ record {
        stations = stations;
        station_id = active;
        modules = a.modules;
        points = a.points;
        issues = a.errors ++ a.warnings;
        st_preview = a.st_text;
        offline = false;
      }
    ]

-- The list of stations when the page opens, or another project does.
unfoldable pub open_page : Option (List StationRow) → DeviceView → DeviceView
open_page none v = record v { offline = true }
open_page (some []) v = record v { stations = [] }
open_page (some (row ∷ rows)) v = record v { stations = row ∷ rows; station_id = row.station_id }

-- The numbers in the page's header.
unfoldable pub error_count : List ValidationIssue → ℕ
error_count issues = length (filter (λ (i : ValidationIssue). i.severity == "error") issues)

unfoldable pub warning_count : List ValidationIssue → ℕ
unfolding error_count
warning_count issues = length issues - error_count issues

unfoldable pub disabled_count : List ExternalVarRow → ℕ
disabled_count points = length (filter (λ (r : ExternalVarRow). not r.enabled) points)

abbrev station_ids : List StationRow → List String
station_ids stations = map (λ (row : StationRow). row.station_id) stations

-- The active station is one of the list, where the list is not empty.
any-contains :
    (id : String) (stations : List StationRow)
    → any (λ (row : StationRow). row.station_id == id) stations ≡ true
    → contains (station_ids stations) id ≡ true
any-contains id [] h = h
any-contains id (row ∷ rows) h = ground (arith, any-contains id rows)

pub active_station-listed :
    (row : StationRow) (rows : List StationRow) (id : String)
    → contains (station_ids (row ∷ rows)) (active_station (row ∷ rows) id) ≡ true
unfolding active_station
active_station-listed row rows id =
    elim (Bool-cases (any (λ (r : StationRow). r.station_id == id) (row ∷ rows))) [
      | inl here ↦ rw here (any-contains id (row ∷ rows) here)
      | inr gone ↦ rw (gone, eq_refl row.station_id) refl
    ]

-- A refresh of an open station shows a station that the backend lists, with what was answered about that
-- station and nothing of another; where an answer fails, all that was shown stays, marked as offline.
pub refresh-shows :
    (row : StationRow) (rows : List StationRow) (answers : String → Option StationAnswers)
    (id : String) (v : DeviceView)
    → (id == "") ≡ false
    → ((a : StationAnswers)
        → answers (active_station (row ∷ rows) id) ≡ some a
        → (let w : DeviceView = refresh (some (row ∷ rows)) answers id v in
            (contains (station_ids w.stations) w.station_id ≡ true)
            × (answers w.station_id ≡ some a)
            × (w.points ≡ a.points)
            × (w.modules ≡ a.modules)
            × (w.offline ≡ false)))
      × (answers (active_station (row ∷ rows) id) ≡ none
          → refresh (some (row ∷ rows)) answers id v ≡ record v { offline = true })
unfolding refresh
refresh-shows row rows answers id v given = (
  λ a h. rw (given, h) (active_station-listed row rows id, h, refl, refl, refl),
  λ h. rw (given, h) refl,
)
