-- ===== src/Blocks/Types.antt =====
-- The blocks of the library as their editor holds them (components/library/BlockEditor.tsx). A value
-- of type `unknown` is a scalar or missing.
use Prim.Native.String
use veristc.Prelude.{String, Bool, Option, List, [], ◌∷◌}
use veristc.Chart.Types.{Scalar}

pub record BlockPort : Type 0 where
  pub name : String
  pub direction : String
  pub data_type : String
  pub description : String
  pub default_value : Option Scalar

pub record BlockParameter : Type 0 where
  pub name : String
  pub data_type : String
  pub default_value : Option Scalar
  pub min_value : Option Scalar
  pub max_value : Option Scalar
  pub description : String

-- The fields of the editor, `EditorSnapshot`.
pub record Snapshot : Type 0 where
  pub name : String
  pub category : String
  pub version : String
  pub description : String
  pub author : String
  pub block_kind : String
  pub time_based : Bool
  pub inputs : List BlockPort
  pub outputs : List BlockPort
  pub parameters : List BlockParameter
  pub st_template : String
  pub icon_svg : String
  pub tags_text : String

pub record AlgorithmBlock : Type 0 where
  pub id : String
  pub name : String
  pub category : String
  pub version : String
  pub description : String
  pub author : String
  pub block_kind : String
  pub time_based : Bool
  pub inputs : List BlockPort
  pub outputs : List BlockPort
  pub parameters : List BlockParameter
  pub st_template : String
  pub icon_svg : String
  pub tags : List String
  pub sha256 : Option String
  pub created_at : Option String
  pub updated_at : Option String
  pub scope : Option String
  pub path : Option String

-- `tags.join(", ")`
abbrev pub join_tags : List String → String
join_tags [] = ""
join_tags (s ∷ []) = s
join_tags (s ∷ r ∷ rest) = String.◌++◌ s (String.◌++◌ ", " (join_tags (r ∷ rest)))

-- The fields of the editor for a block that was opened, or that came back from a save.
unfoldable pub fields_of : AlgorithmBlock → Snapshot
fields_of block = record {
  name = block.name;
  category = block.category;
  version = block.version;
  description = block.description;
  author = block.author;
  block_kind = block.block_kind;
  time_based = block.time_based;
  inputs = block.inputs;
  outputs = block.outputs;
  parameters = block.parameters;
  st_template = block.st_template;
  icon_svg = block.icon_svg;
  tags_text = join_tags block.tags;
}
