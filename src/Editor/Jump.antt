-- ===== src/Editor/Jump.antt =====
-- Where a finding, or a row of the palette, leads on an open sheet (pages/GraphEditorPage.tsx).
use veristc.Prelude.{
  String, ◌==◌, if◌then◌else◌, Bool, Option, none, some, or_try, [], ◌∷◌, any, find,
}
use veristc.Chart.Types.{
  PageDoc, Port, BlockNode, ConstantNode, Position, PortDirection, Selection, interface_id, ports,
}
use veristc.Editor.Actions.{port_direction_on_page}

-- What is selected, and where the view is centred.
pub record Focus : Type 0 where
  pub selection : Selection
  pub at : Option Position

abbrev pub has_port : PageDoc → String → PortDirection → Bool
has_port doc name direction = any (λ (p : Port). p.name == name) (ports doc.interface direction)

abbrev position_of : Option Port → Option Position
position_of none = none
position_of (some p) = p.position

abbrev pub port_focus : PageDoc → String → PortDirection → Focus
port_focus doc name direction = record {
  selection = Selection.port direction name;
  at = position_of (find (λ (p : Port). p.name == name) (ports doc.interface direction));
}

abbrev focus_of : PageDoc → String → Option PortDirection → Option Focus
focus_of doc name none = none
focus_of doc name (some direction) = some (port_focus doc name direction)

-- `focusPort`
unfoldable pub focus_port : PageDoc → String → Option Focus
focus_port doc name = focus_of doc name (port_direction_on_page doc name)

-- The three branches of `jumpTo` for the page that is open then.
abbrev pub jump_port : PageDoc → String → Option Focus
jump_port doc name = focus_of doc name (
    find (has_port doc name)
      (PortDirection.input ∷ PortDirection.output ∷ PortDirection.in_out ∷ []))

abbrev pub jump_constant : Option ConstantNode → Option Focus
jump_constant none = none
jump_constant (some c) = some (record { selection = Selection.constant c.id; at = some c.position })

abbrev pub jump_block : Option BlockNode → Option Focus
jump_block none = none
jump_block (some b) = some (record { selection = Selection.block b.id; at = some b.position })

unfoldable pub jump : PageDoc → String → String → Option Focus
jump doc block port =
    if block == interface_id
    then jump_port doc port
    else or_try (jump_constant (find (λ (c : ConstantNode). c.id == block) doc.constants))
        (jump_block (find (λ (b : BlockNode). b.id == block) doc.blocks))
