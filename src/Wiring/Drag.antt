-- ===== src/Wiring/Drag.antt =====
-- Dragging an element over the sheet (components/graph/Sheet.tsx). A pointer position is the point
-- of the sheet that `toSheet` gives, in whole pixels.
use veristc.Prelude.{
  ℕ, suc, ◌+◌, ◌*◌, ◌/◌, ℤ, pos, negsuc, ◌+ℤ◌, ◌-ℤ◌, max_ℤ, min_ℤ, String, Option, none, some, ◌==◌,
  if◌then◌else◌, nat_beq, List, [], ◌∷◌, map,
}
use veristc.Chart.Types.{
  PageDoc, Port, BlockNode, ConstantNode, Position, PortDirection, ports, set_ports,
}
use veristc.Chart.Geometry.{SheetSize, frame, port_w, port_h}

pub data DragKind : Type 0 where
  block constant port : DragKind

pub record DragState : Type 0 where
  pub kind : DragKind
  pub id : String
  pub direction : Option PortDirection
  pub index : Option ℕ
  pub width : ℕ
  pub height : ℕ
  pub grab : Position
  pub origin : Position

abbrev pub grid_step : ℕ
grid_step = 10

-- `Math.round(value / GRID) * GRID`; a half rounds up, towards positive infinity.
unfoldable pub grid : ℤ → ℤ
grid (pos n) = pos ((n + 5) / 10 * 10)
grid (negsuc n) = pos 0 -ℤ pos ((suc n + 4) / 10 * 10)

abbrev pub drag_width : DragState → ℕ
drag_width d = elim d.kind [ DragKind.port ↦ port_w | _ ↦ d.width ]

abbrev pub drag_height : DragState → ℕ
drag_height d = elim d.kind [ DragKind.port ↦ port_h | _ ↦ d.height ]

-- `Math.min(Math.max(grid(v), FRAME + GRID), size - FRAME - GRID - extent)`
unfoldable pub clamp : ℤ → ℤ → ℕ → ℤ
unfolding grid
clamp v size extent =
    min_ℤ (max_ℤ (grid v) (pos (frame + grid_step)))
      (size -ℤ pos frame -ℤ pos grid_step -ℤ pos extent)

-- The position `next` of `moveElement`.
unfoldable pub drag_target : SheetSize → Position → DragState → Position
unfolding clamp
drag_target sheet at d = record {
  x = clamp (d.origin.x +ℤ (at.x -ℤ d.grab.x)) sheet.w (drag_width d);
  y = clamp (d.origin.y +ℤ (at.y -ℤ d.grab.y)) sheet.h (drag_height d);
}

-- The row `i` of a list of ports, counted from row `k`, put at a position.
unfoldable pub place_port : ℕ → ℕ → Position → List Port → List Port
place_port i k next [] = []
place_port i k next (p ∷ rest) =
    (if nat_beq k i then record p { position = some next } else p) ∷ place_port i (suc k) next rest

unfoldable pub move_port : PortDirection → ℕ → Position → PageDoc → PageDoc
unfolding place_port
move_port direction i next doc = record doc {
  interface =
      set_ports doc.interface direction (place_port i 0 next (ports doc.interface direction));
}

unfoldable pub move_constant : String → Position → PageDoc → PageDoc
move_constant id next doc = record doc {
  constants =
      map (λ (c : ConstantNode). if c.id == id then record c { position = next } else c)
        doc.constants;
}

unfoldable pub move_block : String → Position → PageDoc → PageDoc
move_block id next doc = record doc {
  blocks =
      map (λ (b : BlockNode). if b.id == id then record b { position = next } else b) doc.blocks;
}

-- A dragged port that carries no row is moved as a block of its name would be.
unfoldable pub move_element : SheetSize → Position → DragState → PageDoc → PageDoc
unfolding drag_target move_port move_constant move_block
move_element sheet at d doc =
    let next = drag_target sheet at d in
    elim d.kind [
      | DragKind.constant ↦ move_constant d.id next doc
      | DragKind.block ↦ move_block d.id next doc
      | DragKind.port ↦ elim d.direction [
        | none ↦ move_block d.id next doc
        | some direction ↦ elim d.index [
          | none ↦ move_block d.id next doc
          | some i ↦ move_port direction i next doc
        ]
      ]
    ]
