-- ===== src/Sim/Types.antt =====
-- The answer to a simulation run, and the stimulus that a request carries (components/graph/types.ts).
use veristc.Prelude.{ℕ, String, Bool, Option, List}
use veristc.Chart.Types.{Finding, Number, PinDirection}

-- `number | string`
pub data RawValue : Type 0 where
  raw_number : Number → RawValue
  raw_text : String → RawValue

-- One watched symbol: the timeline that the frames answered for it.
pub record SymbolSeries : Type 0 where
  pub name : String
  pub addr : ℕ
  pub type : String
  pub size : ℕ
  pub channel : Option ℕ
  pub values : List (Option Number)
  pub raw : List (Option RawValue)
  pub forced : List Bool

pub record ForceRow : Type 0 where
  pub id : String
  pub name : String
  pub value : String
  pub on : Bool

pub record ScriptRow : Type 0 where
  pub id : String
  pub cycle : ℕ
  pub name : String
  pub value : String
  pub on : Bool

pub record CycleRow : Type 0 where
  pub cycle : ℕ
  pub t_ms : ℕ
  pub status : ℕ
  pub violations : ℕ

pub data PinRowKind : Type 0 where
  symbol constant unconnected unwatchable : PinRowKind

-- Which symbol carries a pin's value.
pub record PinRow : Type 0 where
  pub page : String
  pub element : String
  pub port : String
  pub direction : PinDirection
  pub type : String
  pub block_kind : Option String
  pub kind : PinRowKind
  pub symbol : Option String
  pub literal : Option String

pub record DiagnosticRow : Type 0 where
  pub severity : String
  pub message : String
  pub pou : Option String
  pub variable : Option String
  pub kind : Option String
  pub loc : Option String

pub data RunStage : Type 0 where
  checker plant compile watch simulate : RunStage

-- `string[] | Finding[]`
pub data RunErrors : Type 0 where
  messages : List String → RunErrors
  findings : List Finding → RunErrors

-- The anonymous types of `done`, `plant` and `station`.
pub record RunDone : Type 0 where
  pub frame : String
  pub cycles : ℕ
  pub t_ms : ℕ
  pub violations : ℕ
  pub read_errors : ℕ
  pub write_errors : ℕ

pub record Plant : Type 0 where
  pub name : String
  pub text : String

pub record RunStation : Type 0 where
  pub station_id : String
  pub cycle_ms : ℕ
  pub display_name : Option String

-- What `POST /sim/run` answers.
pub record SimRun : Type 0 where
  pub ok : Bool
  pub stage : Option RunStage
  pub errors : Option RunErrors
  pub warnings : Option (List Finding)
  pub diagnostics : Option (List DiagnosticRow)
  pub cycles : Option ℕ
  pub cycle_ms : Option ℕ
  pub runs : Option ℕ
  pub done : Option RunDone
  pub timeline : Option (List CycleRow)
  pub symbols : Option (List SymbolSeries)
  pub pins : Option (List PinRow)
  pub plant : Option Plant
  pub station : Option RunStation
