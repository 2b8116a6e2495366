-- ===== src/Monitor/Channels.antt =====
-- The plant channels of the waveform page (pages/WaveformPage.tsx).
use Prim.Native.String
use veristc.Prelude.{
  ℕ, suc, String, ◌==◌, if◌then◌else◌, List, [], ◌∷◌, ◌++◌, filter, length, not, pos,
}
use veristc.Chart.Types.{Number}
use veristc.Lang.Decimal.{decimal}

pub data PlantType : Type 0 where
  const lag ramp actuator : PlantType

pub record PlantChannel : Type 0 where
  pub id : String
  pub name : String
  pub type : PlantType
  pub value : Number
  pub min : Number
  pub max : Number

pub record BindingRow : Type 0 where
  pub var_name : String
  pub channel : ℕ
  pub io_kind : String

abbrev whole : ℕ → Number
whole n = record { mantissa = pos n; exponent = pos 0 }

unfoldable pub plant_type : String → PlantType
plant_type io_kind =
    if io_kind == "AI"
    then PlantType.lag
    else if io_kind == "AO"
    then PlantType.actuator
    else PlantType.const

-- The channels that are derived from the bindings of a station.
unfoldable pub derived_from : ℕ → List BindingRow → List PlantChannel
unfolding plant_type decimal
derived_from idx [] = []
derived_from idx (b ∷ bs) =
    record {
      id = decimal (suc idx);
      name = b.var_name;
      type = plant_type b.io_kind;
      value = whole 0;
      min = whole 0;
      max = whole 100;
    }
    ∷ derived_from (suc idx) bs

-- When the page has its station: a station without bindings keeps the channels.
unfoldable pub on_station : List BindingRow → List PlantChannel → List PlantChannel
unfolding derived_from
on_station [] channels = channels
on_station (b ∷ bs) channels = derived_from 0 (b ∷ bs)

-- When the bindings have changed.
unfoldable pub on_bindings_changed : List BindingRow → List PlantChannel → List PlantChannel
unfolding derived_from
on_bindings_changed bindings channels = derived_from 0 bindings

-- `addChannel`, with the id that the clock gives.
unfoldable pub add_channel : String → List PlantChannel → List PlantChannel
unfolding decimal
add_channel id channels =
    channels
    ++ record {
      id = id;
      name = String.◌++◌ "CH_" (decimal (suc (length channels)));
      type = PlantType.const;
      value = whole 0;
      min = whole 0;
      max = whole 100;
    }
      ∷ []

unfoldable pub remove_channel : String → List PlantChannel → List PlantChannel
remove_channel id channels = filter (λ (c : PlantChannel). not (c.id == id)) channels
