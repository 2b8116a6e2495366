-- ===== src/Monitor/Params.antt =====
-- The editor of the parameters of a running program (components/monitor/ParameterEditor.tsx). A value of
-- type `any` is a scalar or `null`. `String(value)`, `parseInt(text, 10)` and `parseFloat(text)` of the
-- language are the arguments `shown`, `parse_int` and `parse_float`; no number is `NaN`.
use veristc.Prelude.{
  String, ◌==◌, if◌then◌else◌, Option, none, some, or_else, List, [], ◌∷◌, ◌++◌, map, filter, find,
  any, Bool, false, not, ◌&&◌, ◌||◌, ℕ, insert, lookup, contains, pos_part, neg_part, nat_beq,
  is_nil,
}
use veristc.Chart.Types.{Scalar, Number}
use veristc.Lang.Chars.{lower, map_chars}
use veristc.Lang.Grouped.{groups_by}
use veristc.Lang.Split.{Parts, split_on, join_with}

pub record Variable : Type 0 where
  pub name : String
  pub address : ℕ
  pub data_type : String
  pub var_type : String
  pub current_value : Option Scalar
  pub forced_value : Option Scalar
  pub force_status : String
  pub last_updated : String
  pub quality : String

-- What is sent as a new value.
pub data NewValue : Type 0 where
  flag : Bool → NewValue
  number : Option Number → NewValue
  text : String → NewValue

pub record Modification : Type 0 where
  pub block_id : String
  pub parameter_name : String
  pub new_value : NewValue
  pub data_type : String

-- `name.split("_")`
abbrev pub parts_of : String → Parts
parts_of name = split_on "_" name

unfoldable pub block_of : String → String
unfolding split_on
block_of name =
    let parts : Parts = parts_of name in if is_nil parts.others then "MAIN" else parts.first

unfoldable pub param_name_only : String → String
unfolding split_on
param_name_only name =
    let parts : Parts = parts_of name in
    if is_nil parts.others then name else join_with "_" parts.others

unfoldable pub is_parameter : Variable → Bool
is_parameter v = v.var_type == "LOCAL" || v.var_type == "GLOBAL"

abbrev pub Groups : Type 0
Groups = List (String × List Variable)

-- `parameterGroups`, from the loop that fills `groupMap`.
unfoldable pub parameter_groups : List Variable → Groups
unfolding groups_by is_parameter block_of
parameter_groups variables = groups_by is_parameter (λ (v : Variable). block_of v.name) variables []

-- A `Set` of names in the order in which they were added.
abbrev pub set_add : String → List String → List String
set_add a xs = if contains xs a then xs else xs ++ a ∷ []

abbrev pub set_delete : String → List String → List String
set_delete a xs = filter (λ x. not (x == a)) xs

pub record ParamEditor : Type 0 where
  pub editing_params : List String
  pub param_values : List (String × String)
  pub selected_for_batch : List String
  pub show_batch_dialog : Bool

unfoldable pub start_editing :
    (Option Scalar → String) → String → Option Scalar → ParamEditor → ParamEditor
start_editing shown name current_value e = record e {
  editing_params = set_add name e.editing_params;
  param_values = insert name (shown current_value) e.param_values;
}

-- `delete newValues[paramName]`
abbrev pub delete_key : String → List (String × String) → List (String × String)
delete_key key table = filter (λ (entry : String × String). not (entry.0 == key)) table

unfoldable pub cancel_editing : String → ParamEditor → ParamEditor
cancel_editing name e = record e {
  editing_params = set_delete name e.editing_params;
  param_values = delete_key name e.param_values;
}

-- The field of a parameter that is being edited.
unfoldable pub set_param_value : String → String → ParamEditor → ParamEditor
set_param_value name value e = record e { param_values = insert name value e.param_values }

-- `value.toLowerCase() === "true" || value === "1"`
unfoldable pub is_true_text : String → Bool
unfolding lower map_chars
is_true_text value = map_chars lower value == "true" || value == "1"

module _ (parse_int parse_float : String → Option Number) where
  unfoldable pub new_value_of : String → String → NewValue
  unfolding is_true_text
  new_value_of data_type value =
      if data_type == "BOOL"
      then NewValue.flag (is_true_text value)
      else if data_type == "INT" || data_type == "DINT"
      then NewValue.number (parse_int value)
      else if data_type == "REAL"
      then NewValue.number (parse_float value)
      else NewValue.text value

  -- `saveEditing` of a parameter that is being edited: what it sends, and the editor after it.
  unfoldable pub save_editing : String → String → String → ParamEditor → Modification × ParamEditor
  unfolding block_of param_name_only new_value_of cancel_editing
  save_editing name data_type value e = (
    record {
      block_id = block_of name;
      parameter_name = param_name_only name;
      new_value = new_value_of data_type value;
      data_type = data_type;
    },
    cancel_editing name e,
  )

  -- `value || ""` of a current value, shown: a value that counts as false is the empty text.
  unfoldable pub shown_or_empty : (Option Scalar → String) → Option Scalar → String
  shown_or_empty shown none = ""
  shown_or_empty shown (some (Scalar.text s)) = if s == "" then "" else shown (some (Scalar.text s))
  shown_or_empty shown (some (Scalar.flag b)) = if b then shown (some (Scalar.flag b)) else ""
  shown_or_empty shown (some (Scalar.number n)) =
      if nat_beq (pos_part n.mantissa) 0 && nat_beq (neg_part n.mantissa) 0
      then ""
      else shown (some (Scalar.number n))

  abbrev current_of : Option Variable → Option Scalar
  current_of none = none
  current_of (some v) = v.current_value

  -- `variable?.data_type`, as what the branches of the conversion make of it.
  abbrev type_of : Option Variable → String
  type_of none = ""
  type_of (some v) = v.data_type

  -- The value of one parameter in `handleBatchModify`: the text that was typed for it, if there is one.
  unfoldable pub batch_text :
      (Option Scalar → String) → List Variable → List (String × String) → String → String
  unfolding shown_or_empty
  batch_text shown variables param_values name =
      let typed : String = or_else (lookup name param_values) "" in
      if typed == ""
      then shown_or_empty shown (current_of (find (λ (v : Variable). v.name == name) variables))
      else typed

  unfoldable pub batch_entry :
      (Option Scalar → String) → List Variable → List (String × String) → String → Modification
  unfolding block_of param_name_only new_value_of batch_text
  batch_entry shown variables param_values name =
      let data_type : String = type_of (find (λ (v : Variable). v.name == name) variables) in
      record {
        block_id = block_of name;
        parameter_name = param_name_only name;
        new_value = new_value_of data_type (batch_text shown variables param_values name);
        data_type = if data_type == "" then "REAL" else data_type;
      }

  -- `handleBatchModify`: what it sends, and the editor after it.
  unfoldable pub handle_batch_modify :
      (Option Scalar → String) → List Variable → ParamEditor → List Modification × ParamEditor
  unfolding batch_entry
  handle_batch_modify shown variables e = (
    map (batch_entry shown variables e.param_values) e.selected_for_batch,
    record e { selected_for_batch = []; show_batch_dialog = false },
  )

-- The text that the dialog shows for one parameter.
unfoldable pub dialog_text : (Option Scalar → String) → List (String × String) → Variable → String
dialog_text shown param_values v =
    let typed : String = or_else (lookup v.name param_values) "" in
    if typed == "" then shown v.current_value else typed

unfoldable pub toggle_batch_selection : String → ParamEditor → ParamEditor
toggle_batch_selection name e = record e {
  selected_for_batch =
      if contains e.selected_for_batch name
      then set_delete name e.selected_for_batch
      else set_add name e.selected_for_batch;
}

-- The checkbox of a group: whether it is checked, and a click on it.
unfoldable pub is_group_checked : List Variable → ParamEditor → Bool
is_group_checked params e =
    not (any (λ (p : Variable). not (contains e.selected_for_batch p.name)) params)

unfoldable pub add_all : List Variable → List String → List String
add_all [] selected = selected
add_all (p ∷ ps) selected = add_all ps (set_add p.name selected)

unfoldable pub delete_all : List Variable → List String → List String
delete_all [] selected = selected
delete_all (p ∷ ps) selected = delete_all ps (set_delete p.name selected)

unfoldable pub check_group : Bool → List Variable → ParamEditor → ParamEditor
unfolding add_all delete_all
check_group checked params e = record e {
  selected_for_batch =
      if checked
      then add_all params e.selected_for_batch
      else delete_all params e.selected_for_batch;
}
