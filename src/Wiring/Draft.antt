-- ===== src/Wiring/Draft.antt =====
-- A wire being drawn, its target, and how it is put into the document (components/graph/Sheet.tsx).
use veristc.Prelude.{
  ℕ, ◌+◌, ◌*◌, ltb, pos_part, neg_part, ◌-ℤ◌, ℤ, Option, none, some, if◌then◌else◌, List, [], ◌∷◌,
  ◌++◌, any, filter, not, ◌&&◌,
}
use veristc.Chart.Types.{PageDoc, Endpoint, PinPoint, Position}
use veristc.Chart.Pins.{connectable, other_side}
use veristc.Chart.Edit.{driver_on, same_connection}

pub record DraftState : Type 0 where
  pub from : PinPoint
  pub cur : Position
  pub target : Option PinPoint

abbrev pub end_of : PinPoint → Endpoint
end_of p = record { block = p.block; port = p.port }

-- The mutation that `commitDraft` hands to `onPage`, at the two ends of the wire.
unfoldable pub add_wire : Endpoint → Endpoint → PageDoc → PageDoc
add_wire source sink doc =
    if any (λ c. same_connection c source sink) doc.connections then doc else record doc {
      connections =
          (if driver_on doc sink
            then filter (λ c. not (same_connection c c.from sink)) doc.connections
            else doc.connections)
          ++ record { from = source; to = sink } ∷ [];
    }

unfoldable pub commit_draft : PinPoint → PinPoint → PageDoc → PageDoc
unfolding add_wire
commit_draft start target doc =
    let ends = other_side start target in add_wire (end_of ends.0) (end_of ends.1) doc

abbrev pub square : ℤ → ℕ
square a = (pos_part a + neg_part a) * (pos_part a + neg_part a)

-- `Math.hypot` squared; the source compares the roots.
unfoldable pub distance : PinPoint → Position → ℕ
distance pin at = square (pin.x -ℤ at.x) + square (pin.y -ℤ at.y)

-- `HIT_RADIUS`, squared.
abbrev pub hit_radius : ℕ
hit_radius = 16 * 16

-- The loop of `moveDraft`: the pins left, the radius and the target so far.
unfoldable pub nearest : PinPoint → Position → List PinPoint → ℕ → Option PinPoint → Option PinPoint
nearest from at [] radius target = target
nearest from at (pin ∷ pins) radius target =
    let hit = connectable from pin && ltb (distance pin at) radius in
    nearest from at pins (if hit then distance pin at else radius)
      (if hit then some pin else target)

unfoldable pub move_draft : List PinPoint → Position → DraftState → DraftState
unfolding nearest
move_draft pins at current = record current {
  cur = at;
  target = nearest current.from at pins hit_radius none;
}

-- `handleUp`: a draft that has a target becomes a wire.
unfoldable pub handle_up : Option DraftState → PageDoc → PageDoc
unfolding commit_draft
handle_up none doc = doc
handle_up (some draft) doc = elim draft.target [
  | none ↦ doc
  | some target ↦ commit_draft draft.from target doc
]
