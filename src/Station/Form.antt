-- ===== src/Station/Form.antt =====
-- The form of a point's binding (components/device/BindingProperties.tsx) and the fields of its row
-- (components/device/PointBoard.tsx, components/device/ExternalVarTable.tsx). `String` of a number is the
-- argument `shown`, `Number` of a text `to_number`, and `number_of` where it is finite.
use Prim.Native.String
use veristc.Prelude.{
  ℕ, ◌≡◌, refl, String, ◌==◌, if◌then◌else◌, Option, none, some, or_else, List, [], ◌∷◌, filter,
  Bool, false, ◌+◌, length,
}
use veristc.Chart.Types.{Number}
use veristc.Lang.Trim.{trim, is_empty}
use veristc.Station.Types.{ExternalVarRow, BindingPayload, ValidationIssue, ModuleView, ChannelInfo}
use veristc.Station.Points.{payload_for}

pub record FormState : Type 0 where
  pub scale : String
  pub bias : String
  pub safety_min : String
  pub safety_max : String
  pub point_name : String
  pub unit : String
  pub has_quality : Bool
  pub fault_hold : String
  pub preset_value : String
  pub signal_type : String

abbrev pub empty_form : FormState
empty_form = record {
  scale = "1";
  bias = "0";
  safety_min = "";
  safety_max = "";
  point_name = "";
  unit = "";
  has_quality = false;
  fault_hold = "";
  preset_value = "";
  signal_type = "";
}

abbrev pub shown_or_blank : (Number → String) → Option Number → String
shown_or_blank shown none = ""
shown_or_blank shown (some n) = shown n

unfoldable pub from_row : (Number → String) → ExternalVarRow → FormState
from_row shown row = record {
  scale = shown row.scale;
  bias = shown row.bias;
  safety_min = shown_or_blank shown row.safety_min;
  safety_max = shown_or_blank shown row.safety_max;
  point_name = row.point_name;
  unit = row.unit;
  has_quality = row.has_quality;
  fault_hold = row.fault_hold;
  preset_value = shown_or_blank shown row.preset_value;
  signal_type = row.signal_type;
}

-- The form when another point is selected.
unfoldable pub form_of : (Number → String) → Option ExternalVarRow → FormState
unfolding from_row
form_of shown none = empty_form
form_of shown (some row) = from_row shown row

unfoldable pub to_number_or_null : (String → Option Number) → String → Option Number
unfolding trim
to_number_or_null number_of value = if is_empty (trim value) then none else number_of value

-- What the form sends.
unfoldable pub binding_of :
    (String → Number) → (String → Option Number) → ExternalVarRow → FormState → BindingPayload
unfolding to_number_or_null
binding_of to_number number_of row form = record {
  var_name = row.name;
  channel = or_else row.channel 0;
  scale = to_number form.scale;
  bias = to_number form.bias;
  safety_min = to_number_or_null number_of form.safety_min;
  safety_max = to_number_or_null number_of form.safety_max;
  point_name = form.point_name;
  unit = form.unit;
  has_quality = form.has_quality;
  fault_hold = form.fault_hold;
  preset_value = to_number_or_null number_of form.preset_value;
  signal_type = form.signal_type;
}

-- The issues that are listed under the form.
unfoldable pub related : Option ExternalVarRow → List ValidationIssue → List ValidationIssue
related none issues = []
related (some row) issues =
    filter (λ (i : ValidationIssue). elim i.var_name [ none ↦ false | some v ↦ v == row.name ])
      issues

abbrev low_text : (Number → String) → Option Number → String
low_text shown none = "−∞"
low_text shown (some n) = shown n

abbrev high_text : (Number → String) → Option Number → String
high_text shown none = "+∞"
high_text shown (some n) = shown n

abbrev joined_range : (Number → String) → Option Number → Option Number → String
joined_range shown low high =
    String.◌++◌ (low_text shown low) (String.◌++◌ " … " (high_text shown high))

-- `rangeOf` of a card.
unfoldable pub range_of : (Number → String) → Option Number → Option Number → String
range_of shown none none = ""
range_of shown (some low) high = joined_range shown (some low) high
range_of shown none (some high) = joined_range shown none (some high)

-- `commit` of the field of a card: the text, less its blanks, if it is another one.
unfoldable pub commit : String → String → Option String
unfolding trim
commit old draft = let next : String = trim draft in if next == old then none else some next

-- The numbers in the head of the hardware tree.
unfoldable pub point_count : List ModuleView → ℕ
point_count [] = 0
point_count (m ∷ ms) =
    length (filter (λ (c : ChannelInfo). c.bound) m.channel_list) + point_count ms

unfoldable pub channel_count : List ModuleView → ℕ
channel_count [] = 0
channel_count (m ∷ ms) = m.channel_count + channel_count ms

module _ (shown : Number → String) (to_number : String → Number)
    (number_of : String → Option Number) (reads : (n : Number) → to_number (shown n) ≡ n)
    (finite : (n : Number) → number_of (shown n) ≡ some n)
    (full : (n : Number) → is_empty (trim (shown n)) ≡ false) where
  to_number_or_null-shown :
      (limit : Option Number) → to_number_or_null number_of (shown_or_blank shown limit) ≡ limit
  unfolding to_number_or_null
  to_number_or_null-shown none = refl
  to_number_or_null-shown (some n) = rw (full n, finite n) refl

  -- A form that is saved as it was opened sends the binding as it is.
  pub binding_of-from_row :
      (row : ExternalVarRow)
      → binding_of to_number number_of row (from_row shown row) ≡ payload_for row []
  unfolding binding_of from_row payload_for
  binding_of-from_row row =
      rw
        (
          reads row.scale,
          reads row.bias,
          to_number_or_null-shown row.safety_min,
          to_number_or_null-shown row.safety_max,
          to_number_or_null-shown row.preset_value,
        )
        refl
