-- ===== src/Editor/Inspector.antt =====
-- The edits of the inspector (components/graph/Inspector.tsx). A `Partial<T>` that it merges into an
-- element is the function that sets those fields.
use veristc.Prelude.{String, ◌==◌, if◌then◌else◌, List, map, ◌&&◌, ◌||◌}
use veristc.Chart.Types.{
  PageDoc, Port, BlockNode, ConstantNode, Endpoint, Connection, PortDirection, ports, set_ports,
  interface_id,
}

unfoldable pub patch_block : String → (BlockNode → BlockNode) → PageDoc → PageDoc
patch_block id next current = record current {
  blocks = map (λ (b : BlockNode). if b.id == id then next b else b) current.blocks;
}

unfoldable pub patch_constant : String → (ConstantNode → ConstantNode) → PageDoc → PageDoc
patch_constant id next current = record current {
  constants = map (λ (c : ConstantNode). if c.id == id then next c else c) current.constants;
}

abbrev pub patch_rows : String → (Port → Port) → List Port → List Port
patch_rows name next rows = map (λ (p : Port). if p.name == name then next p else p) rows

unfoldable pub patch_port : PortDirection → String → (Port → Port) → PageDoc → PageDoc
patch_port direction name next current = record current {
  interface =
      set_ports current.interface direction
        (patch_rows name next (ports current.interface direction));
}

-- The field with the instance name of a block.
unfoldable pub rename_block : String → String → PageDoc → PageDoc
rename_block old id current = record current {
  blocks = map (λ (b : BlockNode). if b.id == old then record b { id = id } else b) current.blocks;
}

-- A wire end follows the port that it stands on.
unfoldable pub rename_end : String → String → Endpoint → Endpoint
rename_end old name e =
    if e.block == interface_id && e.port == old then record e { port = name } else e

-- The field with the name of a port; the caller has trimmed the new name, and does nothing if it is
-- empty or the old one.
unfoldable pub rename_port : PortDirection → String → String → PageDoc → PageDoc
unfolding rename_end
rename_port direction old name current =
    if name == "" || name == old then current else record current {
      interface = set_ports current.interface direction (
          patch_rows old (λ (p : Port). record p { name = name })
            (ports current.interface direction));
      connections =
          map
            (λ (c : Connection). record {
              from = rename_end old name c.from;
              to = rename_end old name c.to;
            })
            current.connections;
    }
