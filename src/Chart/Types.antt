-- ===== src/Chart/Types.antt =====
-- The page document of a function chart, as components/graph/types.ts declares it. A field that may
-- be missing is an `Option`; a `Record<string, T>` is an association list. Coordinates are whole
-- pixels. A number of a document is a finite double, `mantissa * 2 ^ exponent`.
use veristc.Prelude.{ℕ, ℤ, String, Bool, Option, List}

pub data Scope : Type 0 where
  external intermediate local : Scope

pub record Position : Type 0 where
  pub x : ℤ
  pub y : ℤ

pub record Number : Type 0 where
  pub mantissa : ℤ
  pub exponent : ℤ

-- `string | number | boolean`
pub data Scalar : Type 0 where
  text : String → Scalar
  number : Number → Scalar
  flag : Bool → Scalar

pub record Binding : Type 0 where
  pub station : Option String
  pub variable : Option String

pub record Port : Type 0 where
  pub name : String
  pub type : String
  pub scope : Option Scope
  pub bind : Option Binding
  pub unit : Option String
  pub position : Option Position

pub record InterfaceDoc : Type 0 where
  pub input : List Port
  pub output : List Port
  pub in_out : List Port

pub record ConstantNode : Type 0 where
  pub id : String
  pub type : String
  pub value : Scalar
  pub position : Position

pub record BlockNode : Type 0 where
  pub id : String
  pub type : String
  pub library_id : Option String
  pub position : Position
  pub parameters : Option (List (String × Scalar))

pub record Endpoint : Type 0 where
  pub block : String
  pub port : String

pub record Connection : Type 0 where
  pub from : Endpoint
  pub to : Endpoint

-- The anonymous type of the field `page`.
pub record PageInfo : Type 0 where
  pub id : String
  pub label : Option String
  pub index : Option ℕ
  pub sheet : Option String

pub data PageType : Type 0 where
  fc : PageType

pub record PageDoc : Type 0 where
  pub version : String
  pub type : PageType
  pub name : String
  pub page : PageInfo
  pub interface : InterfaceDoc
  pub constants : List ConstantNode
  pub blocks : List BlockNode
  pub connections : List Connection

pub record LibraryPin : Type 0 where
  pub name : String
  pub type : String
  pub default_value : Option Scalar

-- A row of `inputs`, `outputs` and `parameters`: the keys that the editor reads, where they are texts.
pub record PinSpec : Type 0 where
  pub name : Option String
  pub data_type : Option String
  pub type : Option String
  pub default_value : Option Scalar

pub record LibraryBlock : Type 0 where
  pub id : String
  pub name : String
  pub type : Option String
  pub category : String
  pub version : String
  pub description : String
  pub block_kind : Option String
  pub time_based : Option Bool
  pub st_template : Option String
  pub icon_svg : Option String
  pub tags : Option (List String)
  pub sha256 : Option String
  pub author : Option String
  pub created_at : Option String
  pub updated_at : Option String
  pub inputs : List PinSpec
  pub outputs : List PinSpec
  pub parameters : List PinSpec

pub data Severity : Type 0 where
  error warning info : Severity

pub record Finding : Type 0 where
  pub severity : Severity
  pub code : String
  pub message : String
  pub page : String
  pub block : String
  pub port : String

pub data PortDirection : Type 0 where
  input output in_out : PortDirection

-- A pin carries a signal into its element or out of it.
pub data PinDirection : Type 0 where
  input output : PinDirection

pub data NodeKind : Type 0 where
  block constant port : NodeKind

pub record PinPoint : Type 0 where
  pub block : String
  pub port : String
  pub x : ℤ
  pub y : ℤ
  pub kind : NodeKind
  pub type : String
  pub direction : PinDirection

-- The selection without its `null`, which is `none` of `Option Selection`.
pub data Selection : Type 0 where
  block : String → Selection
  constant : String → Selection
  port : PortDirection → String → Selection
  wire : ℕ → Selection

-- `__interface__`, the block name under which the ports of a page are wired.
abbrev pub interface_id : String
interface_id = "__interface__"

-- `page.interface[direction]`
abbrev pub ports : InterfaceDoc → PortDirection → List Port
ports i PortDirection.input = i.input
ports i PortDirection.output = i.output
ports i PortDirection.in_out = i.in_out

-- `{ ...interface, [direction]: rows }`
abbrev pub set_ports : InterfaceDoc → PortDirection → List Port → InterfaceDoc
set_ports i PortDirection.input rows = record i { input = rows }
set_ports i PortDirection.output rows = record i { output = rows }
set_ports i PortDirection.in_out rows = record i { in_out = rows }
