-- ===== src/Blocks/Symbols.antt =====
-- The symbols of a block's ports in a simulation (components/library/BlockEditor.tsx).
use Prim.Native.Char.{code}
use Prim.Native.String
use veristc.Prelude.{
  ◌||◌, ◌&&◌, leb, ◌==◌, if◌then◌else◌, String, Bool, false, List, [], ◌∷◌, length, contains, map,
}
use veristc.Lang.Trim.{trim, is_empty}
use veristc.Editor.Names.{unique_from, is_name_char}
use veristc.Blocks.Types.{BlockPort}

-- `replace(/[^A-Za-z0-9_]/g, "_")`, for each UTF-16 unit: a character beyond 0xffff is two of them.
unfoldable pub underscored : String → String
underscored String.[] = ""
underscored (String.◌∷◌ c s) =
    if is_name_char c
    then String.◌∷◌ c (underscored s)
    else if leb (code c) 0xffff
    then String.◌∷◌ "_" (underscored s)
    else String.◌∷◌ "_" (String.◌∷◌ "_" (underscored s))

abbrev pub starts_with_digit : String → Bool
starts_with_digit String.[] = false
starts_with_digit (String.◌∷◌ c s) = leb b'0' (code c) && leb (code c) b'9'

unfoldable pub cleaned_name : String → String
unfolding underscored trim
cleaned_name name =
    let cleaned : String = underscored (trim name) in
    if is_empty cleaned || starts_with_digit cleaned then String.◌++◌ "P" cleaned else cleaned

-- The symbol of a port among those that are taken; the caller takes it. With as many rounds as there
-- are symbols taken, the candidate that is left over needs no test.
unfoldable pub port_symbol : String → List String → String
unfolding cleaned_name unique_from
port_symbol name taken =
    let cleaned : String = cleaned_name name in
    let numbered : String = unique_from (length taken) (String.◌++◌ cleaned "_") taken 2 in
    if contains taken cleaned then numbered else cleaned

pub record PortSymbol : Type 0 where
  pub port : String
  pub symbol : String
  pub type : String

-- The symbols of ports in order, given the symbols that are taken.
unfoldable pub symbols_of : List BlockPort → List String → List PortSymbol
unfolding port_symbol
symbols_of [] taken = []
symbols_of (p ∷ ps) taken =
    let symbol : String = port_symbol p.name taken in
    record { port = p.name; symbol = symbol; type = p.data_type } ∷ symbols_of ps (symbol ∷ taken)

abbrev pub symbol_names : List PortSymbol → List String
symbol_names [] = []
symbol_names (p ∷ ps) = p.symbol ∷ symbol_names ps

-- The set of symbols that are taken after those of some ports.
abbrev pub taken_after : List PortSymbol → List String → List String
taken_after [] taken = taken
taken_after (p ∷ ps) taken = taken_after ps (p.symbol ∷ taken)

abbrev pub instance_symbol : BlockPort → PortSymbol
instance_symbol p = record { port = p.name; symbol = String.◌++◌ "B1#" p.name; type = p.data_type }

-- `portMap`
pub record PortMap : Type 0 where
  pub inputs : List PortSymbol
  pub outputs : List PortSymbol

unfoldable pub port_map : String → List BlockPort → List BlockPort → PortMap
unfolding symbols_of
port_map block_kind inputs outputs =
    let first : List PortSymbol = symbols_of inputs [] in
    record {
      inputs = first;
      outputs =
          if block_kind == "FB"
          then map instance_symbol outputs
          else symbols_of outputs (taken_after first []);
    }
