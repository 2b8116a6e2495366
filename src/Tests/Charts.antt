-- ===== src/Tests/Charts.antt =====
-- Runs of the theorems on charts and their wiring.
use Prim.Native.Char.{code}
use veristc.Prelude.{
  pos, ◌≡◌, ◌≢◌, ap, ◌+◌, ◌≤ℤ◌, ◌+ℤ◌, ◌↔◌, ◌⊎◌, true, none, some, List, [], ◌∷◌, In, any, arith,
  int_laws, eq_iff,
}
use veristc.Chart.Types.{Endpoint, Selection, PinDirection, PinPoint}
use veristc.Chart.Geometry.{SheetSize, frame}
use veristc.Chart.Pins.{connectable}
use veristc.Chart.Edit.{delete_selection, same_connection}
use veristc.Chart.Validity.{SingleDriver, drivers}
use veristc.Chart.Deletion.{OnElement, delete_selection-kept_iff}
use veristc.Chart.PinLaws.{NoDot, pin_end, connectable_iff}
use veristc.Wiring.Draft.{DraftState, add_wire, move_draft, hit_radius}
use veristc.Wiring.Commit.{add_wire-drives}
use veristc.Wiring.Target.{IsNearest, OutOfReach, move_draft-IsNearest}
use veristc.Wiring.Drag.{DragState, DragKind, drag_target, drag_width, drag_height, grid_step}
use veristc.Wiring.Bounds.{drag_target_bounds}
use veristc.Tests.Samples.{spot, end_at, pin_a, from_port, small, wired, a_pin}

small-SingleDriver : SingleDriver small
small-SingleDriver e = ground arith

delete_selection-kept_iff_example :
    In from_port (delete_selection wired (some (Selection.constant "k1"))).connections ↔ (
      In from_port wired.connections
      × (¬ OnElement (Selection.constant "k1") from_port.from)
      × (¬ OnElement (Selection.constant "k1") from_port.to))
delete_selection-kept_iff_example =
    delete_selection-kept_iff wired (Selection.constant "k1") from_port tt

add_wire-drives_example :
    (drivers (add_wire (end_at "add1" "Q") pin_a small).connections pin_a ≡ 1)
    × (any
          (λ c. same_connection c (end_at "add1" "Q") pin_a)
          (add_wire (end_at "add1" "Q") pin_a small).connections
        ≡ true)
add_wire-drives_example = add_wire-drives (end_at "add1" "Q") pin_a small small-SingleDriver

other_pin : pin_a ≢ end_at "add1" "B"
other_pin e = absurd (cc ((eq_iff "A" "B").1 (ap (λ (x : Endpoint). x.port) e)))

abbrev a_draft : DraftState
a_draft = record {
  from = a_pin "k1" "OUT" PinDirection.output (pos 168);
  cur = spot (pos 168) (pos 117);
  target = none;
}

abbrev some_pins : List PinPoint
some_pins =
    a_pin "add1" "A" PinDirection.input (pos 200)
    ∷ a_pin "add1" "Q" PinDirection.output (pos 368)
    ∷ []

move_draft-IsNearest_example :
    (((move_draft some_pins (spot (pos 195) (pos 105)) a_draft).target ≡ none)
      × OutOfReach a_draft.from (spot (pos 195) (pos 105)) some_pins hit_radius)
    ⊎ ((p : PinPoint) × ((move_draft some_pins (spot (pos 195) (pos 105)) a_draft).target ≡ some p)
        × IsNearest a_draft.from (spot (pos 195) (pos 105)) some_pins hit_radius p)
move_draft-IsNearest_example = move_draft-IsNearest some_pins (spot (pos 195) (pos 105)) a_draft

abbrev a_sheet : SheetSize
a_sheet = record { w = pos 1587; h = pos 1123; label = "A3" }

abbrev a_drag : DragState
a_drag = record {
  kind = DragKind.block;
  id = "add1";
  direction = none;
  index = none;
  width = 168;
  height = 78;
  grab = spot (pos 210) (pos 110);
  origin = spot (pos 200) (pos 100);
}

drag_target_bounds_example :
    (pos (frame + grid_step) ≤ℤ (drag_target a_sheet (spot (pos 5000) (pos 3)) a_drag).x)
    × ((drag_target a_sheet (spot (pos 5000) (pos 3)) a_drag).x
          +ℤ pos (drag_width a_drag + frame + grid_step)
        ≤ℤ pos 1587)
    × (pos (frame + grid_step) ≤ℤ (drag_target a_sheet (spot (pos 5000) (pos 3)) a_drag).y)
    × ((drag_target a_sheet (spot (pos 5000) (pos 3)) a_drag).y
          +ℤ pos (drag_height a_drag + frame + grid_step)
        ≤ℤ pos 1123)
drag_target_bounds_example =
    drag_target_bounds a_sheet (spot (pos 5000) (pos 3)) a_drag (omega int_laws) (omega int_laws)

a1-NoDot : NoDot "a1"
a1-NoDot = (λ e. absurd (omega (arith, ap code e)), (λ e. absurd (omega (arith, ap code e)), tt))

b-NoDot : NoDot "b"
b-NoDot = (λ e. absurd (omega (arith, ap code e)), tt)

connectable_iff_example :
    (connectable
        (a_pin "a1" "A" PinDirection.input (pos 0))
        (a_pin "b" "Q" PinDirection.output (pos 9))
      ≡ true)
    ↔ ((pin_end (a_pin "a1" "A" PinDirection.input (pos 0))
          ≢ pin_end (a_pin "b" "Q" PinDirection.output (pos 9)))
        × (PinDirection.input ≢ PinDirection.output))
connectable_iff_example =
    connectable_iff (a_pin "a1" "A" PinDirection.input (pos 0))
      (a_pin "b" "Q" PinDirection.output (pos 9)) a1-NoDot b-NoDot
