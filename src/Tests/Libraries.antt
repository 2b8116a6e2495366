-- ===== src/Tests/Libraries.antt =====
-- Runs of the theorems on blocks, their history, their source and the library.
use veristc.Prelude.{◌≡◌, refl, String, true, none, some, List, [], ◌∷◌, inl, lookup, is_some}
use veristc.Chart.Types.{Scalar, LibraryBlock}
use veristc.Blocks.Types.{BlockParameter}
use veristc.Blocks.History.{opened}
use veristc.Blocks.Refining.{Command, Shows, run, run_zipper, run-refines}
use veristc.Blocks.Ports.{edit_parameters, remove_port, strip_from}
use veristc.Blocks.Ranges.{edit_parameters-remove_port}
use veristc.Blocks.Skeleton.{skeleton, sanitize_or}
use veristc.Blocks.Naming.{IsName, st_type_of-skeleton}
use veristc.Editor.Names.{st_type_of, is_name_start, is_name_char}
use veristc.Editor.Library.{library_index, GoesBy, library_index-finds}
use veristc.Lang.Trim.{drop_start, drop_end, is_space}
use veristc.Tests.Samples.{adder}
use veristc.Tests.Devices.{titled}

abbrev some_commands : List Command
some_commands =
    Command.set (titled "b")
    ∷ Command.typed (titled "c")
    ∷ Command.undone
    ∷ Command.undone
    ∷ Command.redone
    ∷ []

run-refines_example :
    Shows
      (run some_commands (opened (titled "a")))
      (run_zipper some_commands (record { past = []; present = titled "a"; future = [] }))
run-refines_example = run-refines some_commands (titled "a")

-- A parameter with its range, as texts.
abbrev a_parameter : String → String → String → BlockParameter
a_parameter name low high = record {
  name = name;
  data_type = "REAL";
  default_value = none;
  min_value = some (Scalar.text low);
  max_value = some (Scalar.text high);
  description = "";
}

edit_parameters-remove_port_example :
    edit_parameters (remove_port 0) (a_parameter "K" "0" "1" ∷ a_parameter "T" "5" "9" ∷ [])
    ≡ a_parameter "T" "0" "1" ∷ []
edit_parameters-remove_port_example =
    edit_parameters-remove_port [] (a_parameter "K" "0" "1") (a_parameter "T" "5" "9" ∷ [])

abbrev shown : Scalar → String
shown value = "1"

abbrev limiter : LibraryBlock
limiter = record adder {
  name = "Limiter block";
  st_template = some (skeleton shown "<b>Lim</b>" "FB" [] [] []);
}

lim_IsName : IsName (sanitize_or "<b>Lim</b>" "UnnamedBlock")
unfolding sanitize_or strip_from drop_start drop_end is_space is_name_start is_name_char
lim_IsName = (refl, (refl, (refl, tt)))

st_type_of-skeleton_example : st_type_of limiter ≡ sanitize_or "<b>Lim</b>" "UnnamedBlock"
st_type_of-skeleton_example =
    st_type_of-skeleton shown "<b>Lim</b>" "FB" [] [] [] limiter lim_IsName refl

library_index-finds_example :
    (is_some (lookup "add" (library_index (adder ∷ []))) ≡ true)
    × (is_some (lookup (st_type_of adder) (library_index (adder ∷ []))) ≡ true)
    × (is_some (lookup "Adder" (library_index (adder ∷ []))) ≡ true)
    × ((key : String) (d : LibraryBlock)
        → lookup key (library_index (adder ∷ [])) ≡ some d
        → GoesBy key d)
library_index-finds_example = library_index-finds (adder ∷ []) adder (inl refl)
