-- ===== src/Station/Actions.antt =====
-- What the device page asks of the backend, and what it tells the user and the other pages
-- (pages/DevicePage.tsx). The backend is the argument `send`: a request leaves it in a new state, and
-- fails with a message or not. The texts of a notice are left out, but for what they count.
use Prim.Native.String
use veristc.Prelude.{
  ℕ, suc, ◌+◌, ◌-◌, ltb, String, ◌==◌, if◌then◌else◌, Option, none, some, List, [], ◌∷◌, ◌++◌, map,
  filter, length, contains, lookup, find, Bool, true, false, not, nat_beq, ◌&&◌,
}
use veristc.Lang.Decimal.{decimal}
use veristc.Station.Types.{ExternalVarRow, BindingPayload, ModuleView, ChannelInfo}
use veristc.Station.Points.{payload_for}
use veristc.Station.Batch.{BatchEdit}

-- What is typed for a new module; its numbers are texts.
pub record NewModule : Type 0 where
  pub module_id : String
  pub kind : String
  pub first_channel : String
  pub channel_count : String

-- The fields of a station, as its form has them (components/device/StationBar.tsx).
pub record StationDraft : Type 0 where
  pub station_id : String
  pub label : String
  pub device_type : String
  pub cycle_ms : ℕ
  pub comm_interface : String
  pub comm_address : String

pub data Request : Type 0 where
  put_mapping : BindingPayload → Request
  put_enabled : String → Bool → Request
  delete_variable : String → Request
  add_module : String → String → ℕ → Request
  post_module : NewModule → Request
  remove_module : String → Request
  create_point : String → ℕ → Request
  put_channel_name : String → ℕ → String → Request
  create_station : StationDraft → Request
  save_station : String → StationDraft → Request
  remove_station : String → Request

pub data Notice : Type 0 where
  success error warning : Notice
  counted_success counted_error counted_warning : ℕ → Notice
  bindings_changed : List (String × ℕ) → Notice
  module_added module_removed station_saved : String → Notice
  refreshed : Notice

pub data BatchAction : Type 0 where
  enable disable delete : BatchAction

-- The names of `graphBoundNames` from the answer of the graph, `none` for one that failed.
unfoldable pub graph_bound_names : Option (List String) → List String
graph_bound_names none = []
graph_bound_names (some rows) = filter (λ name. not (name == "")) rows

-- `guardGraphBind`: may the action go on, and what is shown if not.
unfoldable pub guard_graph_bind : Option (List String) → String → Bool × List Notice
unfolding graph_bound_names
guard_graph_bind answer name =
    if contains (graph_bound_names answer) name then (false, Notice.warning ∷ []) else (true, [])

abbrev pub request_of : BatchAction → String → Request
request_of BatchAction.delete name = Request.delete_variable name
request_of BatchAction.enable name = Request.put_enabled name true
request_of BatchAction.disable name = Request.put_enabled name false

-- The points that a batch leaves alone: those that the graph binds, where it is asked.
unfoldable pub bound_names : Option (List String) → BatchAction → List String
unfolding graph_bound_names
bound_names answer BatchAction.enable = []
bound_names answer BatchAction.disable = graph_bound_names answer
bound_names answer BatchAction.delete = graph_bound_names answer

unfoldable pub targets_of : Option (List String) → BatchAction → List String → List String
unfolding bound_names
targets_of answer action names =
    filter (λ name. not (contains (bound_names answer action) name)) names

unfoldable pub skipped_of : Option (List String) → BatchAction → List String → List String
unfolding bound_names
skipped_of answer action names = filter (contains (bound_names answer action)) names

abbrev pub notice_if : Notice → ℕ → List Notice
notice_if notice n = if ltb 0 n then notice ∷ [] else []

abbrev pub batch_notices : ℕ → ℕ → ℕ → List Notice
batch_notices done failed skipped =
    Notice.refreshed ∷ Notice.bindings_changed [] ∷ notice_if (Notice.counted_success done) done
    ++ (notice_if (Notice.counted_error failed) failed
        ++ notice_if (Notice.counted_warning skipped) skipped)

abbrev pub first_message : String → String → String
first_message message later = if message == "" then later else message

module _ {S : Type 0} (send : Request → S → S × Option String) where
  -- `mutate` of one request: an error is shown, and the station is read again.
  unfoldable pub mutate : Request → S → S × List Notice
  mutate request s =
      let (after, failure) = send request s in
      (
        after,
        elim failure [
          | none ↦ Notice.refreshed ∷ []
          | some m ↦ Notice.error ∷ Notice.refreshed ∷ []
        ],
      )

  unfoldable pub on_save_binding : BindingPayload → S → S × List Notice
  unfolding mutate
  on_save_binding binding s =
      let (after, shown) = mutate (Request.put_mapping binding) s in
      (after, shown ++ Notice.bindings_changed ((binding.var_name, binding.channel) ∷ []) ∷ [])

  -- `onTogglePoint`, given the answer of the graph where it asks for it.
  unfoldable pub on_toggle_point : Option (List String) → String → Bool → S → S × List Notice
  unfolding mutate guard_graph_bind
  on_toggle_point answer name enabled s =
      let (allowed, refusal) = guard_graph_bind answer name in
      let (after, shown) = mutate (Request.put_enabled name enabled) s in
      if not enabled && not allowed then (s, refusal) else (after, shown ++ Notice.success ∷ [])

  -- `onDeletePoint`, given the user's answer.
  unfoldable pub on_delete_point : Option (List String) → Bool → String → S → S × List Notice
  unfolding mutate guard_graph_bind
  on_delete_point answer confirmed name s =
      let (allowed, refusal) = guard_graph_bind answer name in
      let (after, shown) = mutate (Request.delete_variable name) s in
      if not allowed
      then (s, refusal)
      else if not confirmed
      then (s, [])
      else (after, shown ++ Notice.success ∷ [])

  -- The loop of `runBatch` over its targets: the requests that it made, and how many failed.
  pub record Sent : Type 0 where
    pub state : S
    pub requests : List Request
    pub failed : ℕ

  unfoldable pub send_all : List Request → S → Sent
  send_all [] s = record { state = s; requests = []; failed = 0 }
  send_all (r ∷ rs) s =
      let (after, failure) = send r s in
      let rest : Sent = send_all rs after in
      record {
        state = rest.state;
        requests = r ∷ rest.requests;
        failed = (elim failure [ none ↦ 0 | some m ↦ 1 ]) + rest.failed;
      }

  pub record BatchRun : Type 0 where
    pub sent : Sent
    pub notices : List Notice

  -- `runBatch` of an action that the user has confirmed, where it asks; no names do nothing.
  unfoldable pub run_batch : Option (List String) → BatchAction → List String → S → BatchRun
  unfolding send_all targets_of skipped_of
  run_batch answer action [] s = record {
    sent = record { state = s; requests = []; failed = 0 };
    notices = [];
  }
  run_batch answer action (name ∷ names) s =
      let targets : List String = targets_of answer action (name ∷ names) in
      let sent : Sent = send_all (map (request_of action) targets) s in
      record {
        sent = sent;
        notices =
            batch_notices (length targets - sent.failed) sent.failed
              (length (skipped_of answer action (name ∷ names)));
      }

  -- The loop of `runBatchEdit`: what changed, and how many requests failed, with the first message.
  pub record EditRun : Type 0 where
    pub state : S
    pub changed : List (String × ℕ)
    pub failed : ℕ
    pub first_error : String

  unfoldable pub edit_all : List (String × ExternalVarRow) → List BatchEdit → S → EditRun
  unfolding payload_for
  edit_all by_name [] s = record { state = s; changed = []; failed = 0; first_error = "" }
  edit_all by_name (e ∷ es) s = elim (lookup e.name by_name) [
    | none ↦ edit_all by_name es s
    | some row ↦
        let payload : BindingPayload = payload_for row e.patch in
        let (after, failure) = send (Request.put_mapping payload) s in
        let rest : EditRun = edit_all by_name es after in
        elim failure [
          | none ↦ record rest { changed = (payload.var_name, payload.channel) ∷ rest.changed }
          | some message ↦ record rest {
            failed = suc rest.failed;
            first_error = first_message message rest.first_error;
          }
        ]
  ]

  unfoldable pub run_batch_edit :
      List (String × ExternalVarRow) → List BatchEdit → S → EditRun × List Notice
  unfolding edit_all
  run_batch_edit by_name edits s =
      let run : EditRun = edit_all by_name edits s in
      (
        run,
        Notice.refreshed
              ∷ Notice.bindings_changed run.changed
              ∷ notice_if (Notice.counted_success (length run.changed)) (length run.changed)
            ++ notice_if (Notice.counted_error run.failed) run.failed,
      )

  -- `onAddModuleByKind`; a station without free channels is refused.
  unfoldable pub on_add_module : List ModuleView → ℕ → String → S → S × List Notice
  unfolding decimal
  on_add_module modules first_channel kind s =
      let existing : ℕ = length (filter (λ (m : ModuleView). m.kind == kind) modules) in
      let module_id : String = String.◌++◌ kind (decimal (suc existing)) in
      let (after, failure) = send (Request.add_module module_id kind first_channel) s in
      if ltb 63 first_channel then (s, Notice.warning ∷ []) else (
        after,
        elim failure [
          | none ↦
              Notice.refreshed
              ∷ Notice.success
              ∷ Notice.module_added module_id
              ∷ Notice.bindings_changed []
              ∷ []
          | some message ↦ Notice.error ∷ []
        ],
      )

-- `onSelectChannel`: the selected channel, and the point that it selects, if a channel has one.
unfoldable pub channel_owner : List ChannelInfo → ℕ → Option String
channel_owner channels channel =
    elim (find (λ (c : ChannelInfo). nat_beq c.channel channel) channels) [
      | none ↦ none
      | some c ↦ elim c.var_name [ none ↦ none | some v ↦ if v == "" then none else some v ]
    ]
