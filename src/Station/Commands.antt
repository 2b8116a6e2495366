-- ===== src/Station/Commands.antt =====
-- The commands of the device page on modules, channels and stations (pages/DevicePage.tsx), and the form
-- of a station (components/device/StationBar.tsx).
use veristc.Prelude.{
  ℕ, ◌≡◌, refl, ltb, String, ◌==◌, if◌then◌else◌, Option, none, some, List, [], ◌∷◌, ◌++◌, Bool,
  true, false, ◌&&◌,
}
use veristc.Station.Types.{ExternalVarRow, BindingPayload, StationRow}
use veristc.Station.Points.{Field, payload_for}
use veristc.Station.Actions.{Request, Notice, NewModule, StationDraft, mutate}

abbrev pub blank : StationDraft
blank = record {
  station_id = "";
  label = "";
  device_type = "DCU";
  cycle_ms = 100;
  comm_interface = "backplane";
  comm_address = "";
}

unfoldable pub to_draft : StationRow → StationDraft
to_draft station = record {
  station_id = station.station_id;
  label = station.label;
  device_type = station.device_type;
  cycle_ms = station.cycle_ms;
  comm_interface = station.comm_interface;
  comm_address = station.comm_address;
}

-- The bar of the stations: the form of a new one, and that of the selected one.
pub record StationBar : Type 0 where
  pub creating : Bool
  pub new_station : StationDraft
  pub draft : StationDraft

unfoldable pub show_station : Option StationRow → StationBar → StationBar
unfolding to_draft
show_station none bar = record bar { draft = blank }
show_station (some station) bar = record bar { draft = to_draft station }

-- `submitCreate`: the station that is asked for, and the bar after it.
unfoldable pub submit_create : StationBar → Option StationDraft × StationBar
submit_create bar =
    if bar.new_station.station_id == ""
    then (none, bar)
    else (some bar.new_station, record bar { new_station = blank; creating = false })

module _ {S : Type 0} (send : Request → S → S × Option String) where
  -- A command that reads the station again only where it went well, and tells then what it did.
  unfoldable pub command : Request → List Notice → S → S × List Notice
  command request done s =
      let (after, failure) = send request s in
      (after, elim failure [ none ↦ Notice.refreshed ∷ done | some m ↦ Notice.error ∷ [] ])

  -- A command by `mutate`, and what it tells whatever became of it.
  unfoldable pub mutate_then : Request → List Notice → S → S × List Notice
  unfolding mutate
  mutate_then request done s = let (after, shown) = mutate send request s in (after, shown ++ done)

  -- `onSavePoint`
  unfoldable pub on_save_point : ExternalVarRow → List Field → S → S × List Notice
  unfolding mutate_then payload_for
  on_save_point row patch s =
      let payload : BindingPayload = payload_for row patch in
      mutate_then (Request.put_mapping payload)
        (Notice.bindings_changed ((payload.var_name, payload.channel) ∷ []) ∷ []) s

  unfoldable pub on_update_channel_name : String → ℕ → String → S → S × List Notice
  unfolding command
  on_update_channel_name module_id channel name s =
      command (Request.put_channel_name module_id channel name) [] s

  -- `onRemoveModule`, given the user's answer.
  unfoldable pub on_remove_module : Bool → String → S → S × List Notice
  unfolding command
  on_remove_module confirmed module_id s =
      let done : S × List Notice =
        command (Request.remove_module module_id)
          (Notice.success ∷ Notice.module_removed module_id ∷ Notice.bindings_changed [] ∷ []) s in
      if confirmed then done else (s, [])

  unfoldable pub on_create_point : String → ℕ → S → S × List Notice
  unfolding mutate_then
  on_create_point module_id channel s =
      mutate_then (Request.create_point module_id channel) (Notice.success ∷ []) s

  -- `onCreateStation`: what it tells, and the station that is selected then.
  unfoldable pub on_create_station : StationDraft → S → (S × List Notice) × String
  unfolding mutate_then
  on_create_station draft s = (mutate_then (Request.create_station draft) [] s, draft.station_id)

  unfoldable pub on_save_station : String → StationDraft → S → S × List Notice
  unfolding mutate_then
  on_save_station station_key draft s =
      mutate_then (Request.save_station station_key draft)
        (Notice.success ∷ Notice.station_saved draft.station_id ∷ []) s

  unfoldable pub on_remove_station : Bool → String → S → S × List Notice
  unfolding mutate_then
  on_remove_station confirmed id s =
      let done : S × List Notice = mutate_then (Request.remove_station id) [] s in
      if confirmed then done else (s, [])

  -- `addModule` of the form, where `is_past` says whether `Number` of a text is above 63: what is sent and
  -- told, and the form after it. The request carries its numbers as the texts that they are read from.
  unfoldable pub add_module : (String → Bool) → ℕ → NewModule → S → (S × List Notice) × NewModule
  unfolding mutate_then
  add_module is_past suggested_first_channel new_module s =
      let full : Bool = ltb 63 suggested_first_channel && is_past new_module.first_channel in
      let done : S × List Notice =
        mutate_then (Request.post_module new_module)
          (Notice.success ∷ Notice.bindings_changed [] ∷ []) s in
      if new_module.module_id == ""
      then ((s, Notice.warning ∷ []), new_module)
      else if full
      then ((s, Notice.warning ∷ []), new_module)
      else (done, record new_module { module_id = "" })

  -- A module that could not be removed is not told to the other pages, and a command that was not
  -- confirmed leaves the backend alone.
  pub on_remove_module_failed :
      (module_id message : String) (s : S)
      → (send (Request.remove_module module_id) s).1 ≡ some message
      → ((on_remove_module true module_id s).1 ≡ Notice.error ∷ [])
        × (on_remove_module false module_id s ≡ (s, []))
  unfolding on_remove_module command
  on_remove_module_failed module_id message s failed = (rw failed refl, refl)
