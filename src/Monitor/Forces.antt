-- ===== src/Monitor/Forces.antt =====
-- Forcing variables of a running program: the panel for several of them
-- (components/monitor/ForceControlPanel.tsx), and the dialog for one
-- (components/monitor/VariableInspector.tsx). The arguments are those of the parameter editor.
use veristc.Prelude.{
  ◌≡◌, ◌≢◌, refl, String, ◌==◌, if◌then◌else◌, Option, none, some, List, [], map, filter, find,
  lookup, insert, length, contains, Bool, false, not, ◌&&◌, ◌||◌, nat_beq, ltb, eq_false,
}
use veristc.Chart.Types.{Scalar, Number}
use veristc.Sim.Values.{includes}
use veristc.Monitor.Params.{
  Variable, NewValue, new_value_of, batch_text, set_add, set_delete, add_all,
}

-- What is asked of the backend for one variable.
pub record ForceRequest : Type 0 where
  pub variable_name : String
  pub force_value : NewValue
  pub data_type : String

pub record ForcePanel : Type 0 where
  pub selected_variables : List String
  pub batch_force_values : List (String × String)
  pub show_batch_dialog : Bool

unfoldable pub forced_variables : List Variable → List Variable
forced_variables variables = filter (λ (v : Variable). v.force_status == "forced") variables

unfoldable pub available_variables : List Variable → List Variable
available_variables variables =
    filter (λ (v : Variable). not (v.force_status == "forced")) variables

unfoldable pub toggle_selection : String → ForcePanel → ForcePanel
toggle_selection name p = record p {
  selected_variables =
      if contains p.selected_variables name
      then set_delete name p.selected_variables
      else set_add name p.selected_variables;
}

-- `new Set(variables.map(...))`
unfoldable pub select_all_variables : List Variable → ForcePanel → ForcePanel
unfolding add_all
select_all_variables variables p = record p { selected_variables = add_all variables [] }

unfoldable pub deselect_all : ForcePanel → ForcePanel
deselect_all p = record p { selected_variables = [] }

-- The checkbox above the list of the variables that are not forced: whether it is checked, and a click.
unfoldable pub is_list_checked : List Variable → ForcePanel → Bool
unfolding available_variables
is_list_checked variables p =
    nat_beq (length p.selected_variables) (length (available_variables variables))
    && ltb 0 (length (available_variables variables))

unfoldable pub check_list : Bool → List Variable → ForcePanel → ForcePanel
unfolding select_all_variables available_variables deselect_all
check_list checked variables p =
    if checked then select_all_variables (available_variables variables) p else deselect_all p

unfoldable pub set_force_value : String → String → ForcePanel → ForcePanel
set_force_value name value p = record p {
  batch_force_values = insert name value p.batch_force_values;
}

-- `handleBatchRelease`: the names that are released, and the panel after it.
unfoldable pub handle_batch_release : ForcePanel → List String × ForcePanel
handle_batch_release p = (p.selected_variables, record p { selected_variables = [] })

-- The dialog of the inspector: the variable that it is about, and its text.
pub record ForceDialog : Type 0 where
  pub show_force_dialog : Option String
  pub force_value : String

-- The variables that the inspector lists.
unfoldable pub filtered_variables :
    (String → String) → String → String → List Variable → List Variable
filtered_variables to_lower filter_text filter_type variables =
    filter
      (λ (v : Variable).
        (filter_text == "" || includes (to_lower v.name) (to_lower filter_text))
        && (filter_type == "all" || v.var_type == filter_type))
      variables

unfoldable pub open_force : (Option Scalar → String) → Variable → ForceDialog → ForceDialog
open_force shown v d = record {
  show_force_dialog = some v.name;
  force_value = shown v.current_value;
}

abbrev type_in : Option Variable → String
type_in none = ""
type_in (some v) = v.data_type

module _ (parse_int parse_float : String → Option Number) where
  -- One request of `handleBatchForce`.
  unfoldable pub force_request :
      (Option Scalar → String) → List Variable → List (String × String) → String → ForceRequest
  unfolding new_value_of batch_text
  force_request shown variables values name =
      let data_type : String = type_in (find (λ (v : Variable). v.name == name) variables) in
      record {
        variable_name = name;
        force_value =
            new_value_of parse_int parse_float data_type
              (batch_text parse_int parse_float shown variables values name);
        data_type = if data_type == "" then "REAL" else data_type;
      }

  -- `handleBatchForce` and the close of its dialog: what it asks for, and the panel after it.
  unfoldable pub handle_batch_force :
      (Option Scalar → String) → List Variable → ForcePanel → List ForceRequest × ForcePanel
  unfolding force_request
  handle_batch_force shown variables p = (
    map (force_request shown variables p.batch_force_values) p.selected_variables,
    record p { selected_variables = []; batch_force_values = []; show_batch_dialog = false },
  )

  -- `handleForce` of the inspector: what it asks for, and the dialog after it.
  unfoldable pub handle_force : String → String → ForceDialog → ForceRequest × ForceDialog
  unfolding new_value_of
  handle_force name data_type d = (
    record {
      variable_name = name;
      force_value = new_value_of parse_int parse_float data_type d.force_value;
      data_type = data_type;
    },
    record d { show_force_dialog = none; force_value = "" },
  )

  -- A variable for which a text was typed is forced as it would be from the inspector.
  pub force_request-handle_force :
      (shown : Option Scalar → String) (vs : List Variable) (v : Variable)
      (values : List (String × String)) (d : ForceDialog)
      → find (λ (u : Variable). u.name == v.name) vs ≡ some v
      → lookup v.name values ≡ some d.force_value
      → d.force_value ≢ ""
      → v.data_type ≢ ""
      → force_request shown vs values v.name ≡ (handle_force v.name v.data_type d).0
  unfolding force_request batch_text handle_force
  force_request-handle_force shown vs v values d found typed full known =
      rw (found, typed, eq_false d.force_value "" full, eq_false v.data_type "" known) refl
