-- ===== src/Editor/Growing.antt =====
-- A valid page with an element more is valid (`dropBlock`, `addConstant`, `addPort`).
use veristc.Prelude.{subst, sym, inl, inr}
use veristc.Chart.Types.{PageDoc, PortDirection, Position}
use veristc.Chart.Pins.{Library}
use veristc.Chart.Validity.{SingleDriver}
use veristc.Editor.Actions.{DropPayload, PortSeed, drop_block, add_constant, add_port}
use veristc.Editor.Additions.{
  drop_block-cases, drop_block-UniqueIds, drop_block-NoDangling, add_constant-UniqueIds,
  add_constant-NoDangling, add_port-NoDangling,
}
use veristc.Editor.Valid.{IsValid}

drop_block-SingleDriver :
    (library : Library) (payload : DropPayload) (at : Position) (page : PageDoc)
    → SingleDriver page
    → SingleDriver (drop_block library payload at page)
drop_block-SingleDriver library payload at page d =
    elim (drop_block-cases library payload at page) [
      | inl same ↦ subst SingleDriver (sym same) d
      | inr (def, added) ↦ subst SingleDriver (sym added) d
    ]

pub drop_block-IsValid :
    (library : Library) (payload : DropPayload) (at : Position) (page : PageDoc)
    → IsValid page
    → IsValid (drop_block library payload at page)
drop_block-IsValid library payload at page v = record {
  ids = drop_block-UniqueIds library payload at page v.ids;
  wires = drop_block-NoDangling library payload at page v.wires;
  driven = drop_block-SingleDriver library payload at page v.driven;
}

pub add_constant-IsValid : (page : PageDoc) → IsValid page → IsValid (add_constant page)
unfolding add_constant
add_constant-IsValid page v = record {
  ids = add_constant-UniqueIds page v.ids;
  wires = add_constant-NoDangling page v.wires;
  driven = v.driven;
}

pub add_port-IsValid :
    (direction : PortDirection) (seed : PortSeed) (page : PageDoc)
    → IsValid page
    → IsValid (add_port direction seed page)
unfolding add_port
add_port-IsValid direction seed page v = record {
  ids = v.ids;
  wires = add_port-NoDangling direction seed page v.wires;
  driven = v.driven;
}
