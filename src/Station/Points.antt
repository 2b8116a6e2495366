-- ===== src/Station/Points.antt =====
-- What the device page derives from its rows (pages/DevicePage.tsx). A patch of a binding is a list of
-- field values; the later one wins, as in a spread.
use veristc.Prelude.{
  ℕ, suc, leb, if◌then◌else◌, String, ◌==◌, ◌&&◌, Bool, true, false, Option, none, some, or_else,
  List, [], ◌∷◌, map, filter, contains, insert,
}
use veristc.Chart.Types.{Number}
use veristc.Station.Types.{ModuleView, ExternalVarRow, ValidationIssue, BindingPayload}

abbrev pub max_ℕ : ℕ → ℕ → ℕ
max_ℕ a b = if leb a b then b else a

abbrev pub max_last : List ModuleView → ℕ
max_last [] = 0
max_last (m ∷ ms) = max_ℕ m.last_channel (max_last ms)

unfoldable pub suggested_first_channel : List ModuleView → ℕ
suggested_first_channel [] = 0
suggested_first_channel (m ∷ ms) = suc (max_last (m ∷ ms))

-- `errorByVar`, from the issues that are left: a later one replaces an earlier.
unfoldable pub put_issue :
    ValidationIssue → Option String → List (String × String) → List (String × String)
put_issue issue none table = table
put_issue issue (some var_name) table =
    if issue.severity == "error" && not_empty var_name
    then insert var_name issue.message table
    else table
  where
    not_empty : String → Bool
    not_empty s = if s == "" then false else true

unfoldable pub errors_from : List ValidationIssue → List (String × String) → List (String × String)
unfolding put_issue
errors_from [] table = table
errors_from (issue ∷ issues) table = errors_from issues (put_issue issue issue.var_name table)

unfoldable pub error_by_var : List ValidationIssue → List (String × String)
unfolding errors_from
error_by_var issues = errors_from issues []

-- `Object.fromEntries(points.map((row) => [row.name, row]))`
unfoldable pub points_from :
    List ExternalVarRow → List (String × ExternalVarRow) → List (String × ExternalVarRow)
points_from [] table = table
points_from (row ∷ rows) table = points_from rows (insert row.name row table)

unfoldable pub points_by_name : List ExternalVarRow → List (String × ExternalVarRow)
unfolding points_from
points_by_name points = points_from points []

unfoldable pub visible_points : Bool → List ExternalVarRow → List ExternalVarRow
visible_points true points = filter (λ r. r.enabled) points
visible_points false points = points

-- The batch selection, when the points have changed.
unfoldable pub live_selection : List ExternalVarRow → List String → List String
live_selection points selected = filter (contains (map (λ row. row.name) points)) selected

pub data Field : Type 0 where
  point_name unit signal_type fault_hold : String → Field
  channel : ℕ → Field
  scale bias : Number → Field
  safety_min safety_max preset_value : Option Number → Field
  has_quality : Bool → Field

abbrev pub put_field : Field → BindingPayload → BindingPayload
put_field (Field.point_name v) p = record p { point_name = v }
put_field (Field.unit v) p = record p { unit = v }
put_field (Field.signal_type v) p = record p { signal_type = v }
put_field (Field.fault_hold v) p = record p { fault_hold = v }
put_field (Field.channel v) p = record p { channel = v }
put_field (Field.scale v) p = record p { scale = v }
put_field (Field.bias v) p = record p { bias = v }
put_field (Field.safety_min v) p = record p { safety_min = v }
put_field (Field.safety_max v) p = record p { safety_max = v }
put_field (Field.preset_value v) p = record p { preset_value = v }
put_field (Field.has_quality v) p = record p { has_quality = v }

abbrev pub put_fields : List Field → BindingPayload → BindingPayload
put_fields [] p = p
put_fields (f ∷ fs) p = put_fields fs (put_field f p)

unfoldable pub payload_for : ExternalVarRow → List Field → BindingPayload
payload_for row patch = put_fields patch (record {
  var_name = row.name;
  channel = or_else row.channel 0;
  scale = row.scale;
  bias = row.bias;
  safety_min = row.safety_min;
  safety_max = row.safety_max;
  point_name = row.point_name;
  unit = row.unit;
  has_quality = row.has_quality;
  fault_hold = row.fault_hold;
  preset_value = row.preset_value;
  signal_type = row.signal_type;
})
