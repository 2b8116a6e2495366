-- ===== src/Blocks/Skeleton.antt =====
-- The source that the block editor puts down for a block without one (`skeleton` of `SourceSection`,
-- components/library/BlockEditor.tsx), and the block that is saved (`handleSave`). `String(value)` of
-- the language is the argument `shown`.
use Prim.Native.String
use veristc.Prelude.{
  String, ◌==◌, if◌then◌else◌, Option, none, some, List, [], ◌∷◌, ◌++◌, map, filter, not,
}
use Prim.Native.Char.{code}
use veristc.Prelude.{nat_beq}
use veristc.Chart.Types.{Scalar}
use veristc.Lang.Trim.{trim, is_empty}
use veristc.Blocks.Types.{BlockPort, BlockParameter, AlgorithmBlock, Snapshot}
use veristc.Blocks.Ports.{strip_tags}

-- `lines.join("\n")`
abbrev pub join_lines : List String → String
join_lines [] = ""
join_lines (l ∷ []) = l
join_lines (l ∷ m ∷ rest) = String.◌++◌ l (String.◌++◌ "\n" (join_lines (m ∷ rest)))

-- `sanitize(s) || other`
unfoldable pub sanitize_or : String → String → String
unfolding strip_tags trim
sanitize_or s other =
    let clean : String = trim (strip_tags s) in if is_empty clean then other else clean

unfoldable pub port_line : BlockPort → String
unfolding sanitize_or
port_line p = String.◌++◌ "    " (
    String.◌++◌ (sanitize_or p.name "port")
      (String.◌++◌ " : " (String.◌++◌ (sanitize_or p.data_type "REAL") ";")))

abbrev pub shown_default : (Scalar → String) → Option Scalar → String
shown_default shown none = "0"
shown_default shown (some value) = shown value

unfoldable pub parameter_line : (Scalar → String) → BlockParameter → String
unfolding sanitize_or
parameter_line shown p = String.◌++◌ "    " (
    String.◌++◌ (sanitize_or p.name "param") (
      String.◌++◌ " : " (
        String.◌++◌ (sanitize_or p.data_type "REAL")
          (String.◌++◌ " := " (String.◌++◌ (shown_default shown p.default_value) ";")))))

-- The lines of one declaration, none for no rows.
abbrev pub declaration : String → List String → List String
declaration keyword [] = []
declaration keyword (l ∷ ls) = keyword ∷ (l ∷ ls) ++ "END_VAR" ∷ []

abbrev pub keyword_of : String → String
keyword_of block_kind = if block_kind == "FUN" then "FUNCTION" else "FUNCTION_BLOCK"

abbrev pub end_keyword : String → String
end_keyword block_kind = if block_kind == "FUN" then "END_FUNCTION" else "END_FUNCTION_BLOCK"

unfoldable pub skeleton :
    (Scalar → String)
    → String
    → String
    → List BlockPort
    → List BlockPort
    → List BlockParameter
    → String
unfolding port_line parameter_line sanitize_or
skeleton shown name block_kind inputs outputs parameters = join_lines (
    String.◌++◌ (keyword_of block_kind) (String.◌++◌ " " (sanitize_or name "UnnamedBlock"))
      ∷ declaration "VAR_INPUT" (map port_line inputs)
    ++ (declaration "VAR_OUTPUT" (map port_line outputs)
        ++ (declaration "VAR" (map (parameter_line shown) parameters)
            ++ "" ∷ end_keyword block_kind ∷ [])))

-- `text.split(",")`: the first part, and the others.
abbrev split_comma : String → String × List String
split_comma String.[] = ("", [])
split_comma (String.◌∷◌ c s) =
    let (part, parts) = split_comma s in
    if nat_beq (code c) b',' then ("", part ∷ parts) else (String.◌∷◌ c part, parts)

-- The tags of the block that `handleSave` sends.
unfoldable pub tags_of : String → List String
unfolding trim
tags_of text =
    let (part, parts) = split_comma text in filter (λ s. not (is_empty s)) (map trim (part ∷ parts))

-- The block that `handleSave` sends, given the drawing of its symbol.
unfoldable pub saved_block : (AlgorithmBlock → String) → AlgorithmBlock → Snapshot → AlgorithmBlock
unfolding tags_of
saved_block generate block fields = record block {
  name = fields.name;
  category = fields.category;
  version = fields.version;
  description = fields.description;
  author = fields.author;
  block_kind = fields.block_kind;
  time_based = fields.time_based;
  inputs = fields.inputs;
  outputs = fields.outputs;
  parameters = fields.parameters;
  st_template = fields.st_template;
  icon_svg =
      if is_empty fields.icon_svg
      then generate (record block {
        name = fields.name;
        inputs = fields.inputs;
        outputs = fields.outputs;
        parameters = fields.parameters;
      })
      else fields.icon_svg;
  tags = tags_of fields.tags_text;
}
