-- ===== src/Blocks/Ports.antt =====
-- The tables of ports and parameters in the block editor (`PortsSection` and `PortSection`,
-- components/library/BlockEditor.tsx). `Number(text)` of the language, where it is finite, is the
-- argument `number_of`.
use Prim.Native.String
use Prim.Native.Char.{code}
use veristc.Prelude.{
  ℕ, zero, suc, String, Option, none, some, List, [], ◌∷◌, ◌++◌, map, length, erase_idx, get_elem?,
  Bool, true, false, not, ◌&&◌, ◌||◌, nat_beq, if◌then◌else◌, pos,
}
use veristc.Chart.Types.{Scalar, Number}
use veristc.Lang.Decimal.{decimal}
use veristc.Blocks.Types.{BlockPort, BlockParameter}

abbrev has_close : String → Bool
has_close String.[] = false
has_close (String.◌∷◌ c s) = nat_beq (code c) b'>' || has_close s

-- `replace(/<[^>]*>/g, "")`, from inside of a tag or from outside of one.
unfoldable pub strip_from : Bool → String → String
strip_from inside String.[] = ""
strip_from true (String.◌∷◌ c s) = strip_from (not (nat_beq (code c) b'>')) s
strip_from false (String.◌∷◌ c s) =
    let tag = nat_beq (code c) b'<' && has_close s in
    let rest = strip_from tag s in if tag then rest else String.◌∷◌ c rest

unfoldable pub strip_tags : String → String
unfolding strip_from
strip_tags s = strip_from false s

-- `next[idx] = f(next[idx])` on a copy of the rows.
abbrev pub update_at : {A : Type 0} → ℕ → (A → A) → List A → List A
update_at i f [] = []
update_at zero f (x ∷ xs) = f x ∷ xs
update_at (suc i) f (x ∷ xs) = x ∷ update_at i f xs

unfoldable pub set_port_name : ℕ → String → List BlockPort → List BlockPort
unfolding strip_tags
set_port_name idx name rows =
    update_at idx (λ (p : BlockPort). record p { name = strip_tags name }) rows

unfoldable pub set_port_type : ℕ → String → List BlockPort → List BlockPort
set_port_type idx data_type rows =
    update_at idx (λ (p : BlockPort). record p { data_type = data_type }) rows

unfoldable pub set_port_description : ℕ → String → List BlockPort → List BlockPort
set_port_description idx description rows =
    update_at idx (λ (p : BlockPort). record p { description = description }) rows

unfoldable pub set_port_default :
    (String → Option Number) → ℕ → String → List BlockPort → List BlockPort
set_port_default number_of idx text rows =
    update_at idx
      (λ (p : BlockPort). record p {
        default_value =
            some (elim (number_of text) [ none ↦ Scalar.text text | some n ↦ Scalar.number n ]);
      })
      rows

unfoldable pub remove_port : ℕ → List BlockPort → List BlockPort
remove_port idx rows = erase_idx rows idx

unfoldable pub add_input : List BlockPort → List BlockPort
unfolding decimal
add_input inputs =
    inputs
    ++ record {
      name = String.◌++◌ "IN" (decimal (length inputs));
      direction = "input";
      data_type = "REAL";
      description = "";
      default_value = none;
    }
      ∷ []

unfoldable pub add_output : List BlockPort → List BlockPort
unfolding decimal
add_output outputs =
    outputs
    ++ record {
      name = String.◌++◌ "OUT" (decimal (length outputs));
      direction = "output";
      data_type = "REAL";
      description = "";
      default_value = none;
    }
      ∷ []

unfoldable pub add_parameter : List BlockParameter → List BlockParameter
unfolding decimal
add_parameter parameters =
    parameters
    ++ record {
      name = String.◌++◌ "P" (decimal (length parameters));
      data_type = "REAL";
      default_value = some (Scalar.number (record { mantissa = pos 0; exponent = pos 0 }));
      min_value = none;
      max_value = none;
      description = "";
    }
      ∷ []

-- The row of the table for a parameter.
abbrev pub parameter_row : BlockParameter → BlockPort
parameter_row p = record {
  name = p.name;
  direction = "param";
  data_type = p.data_type;
  description = p.description;
  default_value = p.default_value;
}

-- A parameter from its edited row, and from the parameter that stood at its place before.
abbrev pub merged : Option BlockParameter → BlockPort → BlockParameter
merged none row = record {
  name = row.name;
  data_type = row.data_type;
  default_value = row.default_value;
  min_value = none;
  max_value = none;
  description = row.description;
}
merged (some old) row = record {
  name = row.name;
  data_type = row.data_type;
  default_value = row.default_value;
  min_value = old.min_value;
  max_value = old.max_value;
  description = old.description;
}

-- The arrow that `onParametersChange` is given the rows through.
unfoldable pub merge_rows : List BlockParameter → ℕ → List BlockPort → List BlockParameter
merge_rows parameters idx [] = []
merge_rows parameters idx (row ∷ rows) =
    merged (get_elem? parameters idx) row ∷ merge_rows parameters (suc idx) rows

-- An edit of the table of parameters.
unfoldable pub edit_parameters :
    (List BlockPort → List BlockPort) → List BlockParameter → List BlockParameter
unfolding merge_rows
edit_parameters edit parameters = merge_rows parameters 0 (edit (map parameter_row parameters))
