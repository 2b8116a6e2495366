-- ===== src/Tests/Pages.antt =====
-- Runs of the theorems on pages that were edited several times.
use veristc.Prelude.{
  ℕ, zero, suc, ◌≡◌, refl, eq_iff, some, List, [], ◌∷◌, length, ltb, true, inl, inr, In, pos, arith,
}
use veristc.Chart.Types.{PageDoc, PinPoint, PinDirection, PortDirection, Selection, interface_id}
use veristc.Chart.Edit.{empty_page, delete_selection}
use veristc.Chart.Pins.{pin_map}
use veristc.Chart.Validity.{SingleDriver}
use veristc.Wiring.Draft.{commit_draft}
use veristc.Editor.Actions.{DropPayload, drop_block, add_constant}
use veristc.Editor.Inspector.{rename_port}
use veristc.Editor.Valid.{IsValid}
use veristc.Editor.Merging.{rename_port-doubles}
use veristc.Editor.Reaching.{EditStep, Edits, edited-IsValid}
use veristc.Tests.Samples.{spot, library, wire_of, end_at, page_with, a_pin}

-- The pin of a number, and that it is one of the pins.
abbrev nth_pin : ℕ → List PinPoint → PinPoint
nth_pin n [] = a_pin "" "" PinDirection.input (pos 0)
nth_pin zero (p ∷ ps) = p
nth_pin (suc n) (p ∷ ps) = nth_pin n ps

nth_pin-In : (n : ℕ) (ps : List PinPoint) → ltb n (length ps) ≡ true → In (nth_pin n ps) ps
nth_pin-In n [] h = ground (arith, h)
nth_pin-In zero (p ∷ ps) h = inl refl
nth_pin-In (suc n) (p ∷ ps) h = inr (nth_pin-In n ps (ground (arith, h)))

abbrev new_page : PageDoc
new_page = empty_page "p1" "MAIN" 0 "A3"

abbrev add_payload : DropPayload
add_payload = record { library_id = "add"; type = "ADD" }

-- A constant and a block.
abbrev two_elements : PageDoc
two_elements = drop_block library add_payload (spot (pos 100) (pos 100)) (add_constant new_page)

abbrev pin : ℕ → PinPoint
pin n = nth_pin n (pin_map two_elements library)

-- The two are wired, and then the block is deleted.
abbrev wired_page : PageDoc
wired_page = commit_draft (pin 3) (pin 0) two_elements

edits : Edits library new_page (delete_selection wired_page (some (Selection.block "add1")))
unfolding pin_map mathlib.Core.List.flat_map drop_block add_constant empty_page
edits =
    Edits.and_then wired_page _
      (Edits.and_then two_elements _
        (Edits.and_then (add_constant new_page) _
          (Edits.and_then new_page _ Edits.none_yet (EditStep.constant_added new_page))
          (EditStep.dropped _ add_payload (spot (pos 100) (pos 100))))
        (EditStep.wired two_elements (pin 3) (pin 0)
          (nth_pin-In 3 (pin_map two_elements library) refl)
          (nth_pin-In 0 (pin_map two_elements library) refl)))
      (EditStep.deleted wired_page (some (Selection.block "add1")))

edited-IsValid_example : IsValid (delete_selection wired_page (some (Selection.block "add1")))
edited-IsValid_example = edited-IsValid library "p1" "MAIN" 0 "A3" _ edits

-- Two outputs of the page, both driven by the block.
abbrev two_outputs : PageDoc
two_outputs = page_with (
    wire_of (end_at "add1" "Q") (end_at interface_id "Y")
    ∷ wire_of (end_at "add1" "Q") (end_at interface_id "Z")
    ∷ [])

rename_port-doubles_example : ¬ SingleDriver (rename_port PortDirection.output "Y" "Z" two_outputs)
rename_port-doubles_example =
    rename_port-doubles PortDirection.output "Y" "Z" two_outputs
      (λ e. ground (arith, eq_iff "Z" "")) (λ e. ground (arith, eq_iff "Z" "Y")) refl refl
