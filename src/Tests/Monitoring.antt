-- ===== src/Tests/Monitoring.antt =====
-- Runs of the theorems on the editor of parameters.
use Prim.Native.String
use veristc.Prelude.{
  ◌≡◌, String, ◌==◌, ◌&&◌, ◌||◌, ◌⊎◌, none, some, List, [], ◌∷◌, pos, or_else, lookup, filter,
  contains, if◌then◌else◌, false,
}
use veristc.Chart.Types.{Scalar}
use veristc.Monitor.Params.{
  ParamEditor, check_group, Variable, parameter_groups, block_of, param_name_only,
}
use veristc.Monitor.Grouping.{
  before_underscore, lookup-parameter_groups, block_of-param_name_only, is_of, check_group-selected,
}

abbrev zero_scalar : Scalar
zero_scalar = Scalar.number (record { mantissa = pos 0; exponent = pos 0 })

abbrev a_variable : String → String → Variable
a_variable name var_type = record {
  name = name;
  address = 0;
  data_type = "INT";
  var_type = var_type;
  current_value = some zero_scalar;
  forced_value = none;
  force_status = "";
  last_updated = "";
  quality = "";
}

abbrev some_variables : List Variable
some_variables =
    a_variable "PID_KP" "LOCAL"
    ∷ a_variable "PID_PV" "INPUT"
    ∷ a_variable "LIMIT" "GLOBAL"
    ∷ a_variable "PID_T_I" "LOCAL"
    ∷ []

lookup-parameter_groups_example :
    or_else (lookup "PID" (parameter_groups some_variables)) []
    ≡ filter
        (λ (v : Variable).
          (v.var_type == "LOCAL" || v.var_type == "GLOBAL")
          && or_else (before_underscore v.name) "MAIN" == "PID")
        some_variables
lookup-parameter_groups_example = lookup-parameter_groups "PID" some_variables

block_of-param_name_only_example :
    ((before_underscore "PID_T_I" ≡ none)
      × (block_of "PID_T_I" ≡ "MAIN")
      × (param_name_only "PID_T_I" ≡ "PID_T_I"))
    ⊎ ((front : String) × (before_underscore "PID_T_I" ≡ some front)
        × (block_of "PID_T_I" ≡ front)
        × (String.◌++◌ front (String.◌++◌ "_" (param_name_only "PID_T_I")) ≡ "PID_T_I"))
block_of-param_name_only_example = block_of-param_name_only "PID_T_I"

-- One parameter of the group of PID is selected, and one outside it.
abbrev an_editor : ParamEditor
an_editor = record {
  editing_params = [];
  param_values = [];
  selected_for_batch = "LIMIT" ∷ "PID_KP" ∷ [];
  show_batch_dialog = false;
}

abbrev pid_group : List Variable
pid_group = a_variable "PID_KP" "LOCAL" ∷ a_variable "PID_T_I" "LOCAL" ∷ []

check_group-selected_example :
    contains (check_group false pid_group an_editor).selected_for_batch "LIMIT"
    ≡ (if is_of pid_group "LIMIT" then false else contains ("LIMIT" ∷ "PID_KP" ∷ []) "LIMIT")
check_group-selected_example = check_group-selected false pid_group an_editor "LIMIT"
