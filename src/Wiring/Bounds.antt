-- ===== src/Wiring/Bounds.antt =====
-- The bounds of a dragged element (`moveElement`).
use veristc.Prelude.{
  ℕ, ◌+◌, ◌%◌, ◌≡◌, ℤ, pos, negsuc, pos_part, neg_part, ◌≤ℤ◌, ◌+ℤ◌, ◌-ℤ◌, max_ℤ, min_ℤ, arith,
  int_laws,
}
use veristc.Chart.Types.{Position}
use veristc.Chart.Geometry.{SheetSize, frame}
use veristc.Wiring.Drag.{DragState, grid, grid_step, clamp, drag_target, drag_width, drag_height}

-- A size leaves room for an element of an extent between the margins.
abbrev pub HasRoom : ℤ → ℕ → Type 0
HasRoom size extent = pos (frame + grid_step + extent + frame + grid_step) ≤ℤ size

le-max_ℤ_right : (a b : ℤ) → b ≤ℤ max_ℤ a b
unfolding max_ℤ
le-max_ℤ_right a b = ground arith

le-min_ℤ : (a b c : ℤ) → c ≤ℤ a → c ≤ℤ b → c ≤ℤ min_ℤ a b
unfolding min_ℤ
le-min_ℤ a b c h k = ground arith

min_ℤ-le_right : (a b : ℤ) → min_ℤ a b ≤ℤ b
unfolding min_ℤ
min_ℤ-le_right a b = ground arith

-- What is left of the sheet for the corner of an element.
abbrev last_corner : ℤ → ℕ → ℤ
last_corner size extent = size -ℤ pos frame -ℤ pos grid_step -ℤ pos extent

last_corner_bounds :
    (size : ℤ) (extent : ℕ)
    → HasRoom size extent
    → (pos (frame + grid_step) ≤ℤ last_corner size extent)
      × (last_corner size extent +ℤ pos (extent + frame + grid_step) ≤ℤ size)
last_corner_bounds size extent h = (omega int_laws, omega int_laws)

+ℤ_mono_left : (a b c : ℤ) → a ≤ℤ b → a +ℤ c ≤ℤ b +ℤ c
+ℤ_mono_left a b c h = omega int_laws

≤ℤ_trans : (a b c : ℤ) → a ≤ℤ b → b ≤ℤ c → a ≤ℤ c
≤ℤ_trans a b c h k = omega arith

clamp_bounds :
    (v size : ℤ) (extent : ℕ)
    → HasRoom size extent
    → (pos (frame + grid_step) ≤ℤ clamp v size extent)
      × (clamp v size extent +ℤ pos (extent + frame + grid_step) ≤ℤ size)
unfolding clamp
clamp_bounds v size extent h =
    let (low, high) = last_corner_bounds size extent h in
    (
      le-min_ℤ (max_ℤ (grid v) (pos (frame + grid_step))) (last_corner size extent)
          (pos (frame + grid_step)) (le-max_ℤ_right (grid v) (pos (frame + grid_step))) low,
      ≤ℤ_trans (clamp v size extent +ℤ pos (extent + frame + grid_step))
          (last_corner size extent +ℤ pos (extent + frame + grid_step)) size
          (+ℤ_mono_left (clamp v size extent) (last_corner size extent)
            (pos (extent + frame + grid_step)) (min_ℤ-le_right _ (last_corner size extent)))
          high,
    )

-- Wherever the pointer goes, a dragged element lies between the margins of the sheet, if the sheet
-- has room for it.
pub drag_target_bounds :
    (sheet : SheetSize) (at : Position) (d : DragState)
    → HasRoom sheet.w (drag_width d)
    → HasRoom sheet.h (drag_height d)
    → (pos (frame + grid_step) ≤ℤ (drag_target sheet at d).x)
      × ((drag_target sheet at d).x +ℤ pos (drag_width d + frame + grid_step) ≤ℤ sheet.w)
      × (pos (frame + grid_step) ≤ℤ (drag_target sheet at d).y)
      × ((drag_target sheet at d).y +ℤ pos (drag_height d + frame + grid_step) ≤ℤ sheet.h)
unfolding drag_target
drag_target_bounds sheet at d hw hh =
    let bx = clamp_bounds _ sheet.w (drag_width d) hw in
    let by = clamp_bounds _ sheet.h (drag_height d) hh in (bx.0, bx.1, by.0, by.1)

-- The grid moves a value by half a step at most, and to a multiple of the step.
pub grid_lem :
    (v : ℤ)
    → (grid v ≤ℤ v +ℤ pos 5)
      × (v ≤ℤ grid v +ℤ pos 5)
      × ((pos_part (grid v) + neg_part (grid v)) % 10 ≡ 0)
unfolding grid ◌+ℤ◌ ◌-ℤ◌
grid_lem (pos n) = (ground arith, ground arith, ground arith)
grid_lem (negsuc n) = (ground arith, ground arith, ground arith)
