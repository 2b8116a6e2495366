-- ===== src/Blocks/Ranges.antt =====
-- What the edits of the table of parameters do to the ranges of the parameters (`PortsSection`).
use veristc.Prelude.{
  ℕ, zero, suc, ◌≡◌, refl, ap, ◌∙◌, some, List, [], ◌∷◌, ◌++◌, map, length, get_elem?, erase_idx,
}
use veristc.Blocks.Types.{BlockPort, BlockParameter}
use veristc.Blocks.Ports.{
  update_at, parameter_row, merged, merge_rows, edit_parameters, remove_port,
}

merge_rows-cons :
    (q : BlockParameter) (ps : List BlockParameter) (i : ℕ) (rows : List BlockPort)
    → merge_rows (q ∷ ps) (suc i) rows ≡ merge_rows ps i rows
unfolding merge_rows
merge_rows-cons q ps i [] = refl
merge_rows-cons q ps i (row ∷ rows) =
    ap (merged (get_elem? ps i) row ∷◌) (merge_rows-cons q ps (suc i) rows)

-- The rows as they are give the parameters back.
merge_rows-map : (ps : List BlockParameter) → merge_rows ps 0 (map parameter_row ps) ≡ ps
unfolding merge_rows
merge_rows-map [] = refl
merge_rows-map (p ∷ ps) =
    ap (p ∷◌) (merge_rows-cons p ps 0 (map parameter_row ps) ∙ merge_rows-map ps)

-- An edit of one row of the parameters changes that parameter alone, and neither its range nor its
-- description.
pub edit_parameters-update_at :
    (i : ℕ) (edit : BlockPort → BlockPort) (ps : List BlockParameter)
    → edit_parameters (update_at i edit) ps
      ≡ update_at i
          (λ (p : BlockParameter). record p {
            name = (edit (parameter_row p)).name;
            data_type = (edit (parameter_row p)).data_type;
            default_value = (edit (parameter_row p)).default_value;
          })
          ps
unfolding edit_parameters merge_rows
edit_parameters-update_at i edit [] = refl
edit_parameters-update_at zero edit (p ∷ ps) =
    ap (merged (some p) (edit (parameter_row p)) ∷◌)
      (merge_rows-cons p ps 0 (map parameter_row ps) ∙ merge_rows-map ps)
edit_parameters-update_at (suc i) edit (p ∷ ps) = ap (p ∷◌) (
    merge_rows-cons p ps 0 (update_at i edit (map parameter_row ps))
    ∙ edit_parameters-update_at i edit ps)

-- Parameters that take range and description each from the one before it.
abbrev pub shifted : BlockParameter → List BlockParameter → List BlockParameter
shifted before [] = []
shifted before (p ∷ ps) =
    record p {
      min_value = before.min_value;
      max_value = before.max_value;
      description = before.description;
    }
    ∷ shifted p ps

merge_rows-shifted :
    (p : BlockParameter) (ps : List BlockParameter)
    → merge_rows (p ∷ ps) 0 (map parameter_row ps) ≡ shifted p ps
unfolding merge_rows
merge_rows-shifted p [] = refl
merge_rows-shifted p (q ∷ ps) =
    ap (merged (some p) (parameter_row q) ∷◌)
      (merge_rows-cons p (q ∷ ps) 0 (map parameter_row ps) ∙ merge_rows-shifted q ps)

-- Removing a parameter from the table gives each later one the range and the description of the
-- parameter before it.
pub edit_parameters-remove_port :
    (pre : List BlockParameter) (p : BlockParameter) (post : List BlockParameter)
    → edit_parameters (remove_port (length pre)) (pre ++ p ∷ post) ≡ pre ++ shifted p post
unfolding edit_parameters merge_rows remove_port
edit_parameters-remove_port [] p post = merge_rows-shifted p post
edit_parameters-remove_port (q ∷ pre) p post = ap (q ∷◌) (
    merge_rows-cons q (pre ++ p ∷ post) 0
      (erase_idx (map parameter_row (pre ++ p ∷ post)) (length pre))
    ∙ edit_parameters-remove_port pre p post)
