-- ===== src/Editor/Merging.antt =====
-- The drivers of the pins after a port is renamed (components/graph/Inspector.tsx).
use veristc.Prelude.{
  ◌+◌, ◌≤◌, ◌≡◌, ◌≢◌, subst, String, ◌==◌, eq_iff, eq_refl, List, [], ◌∷◌, map, true, false, ◌||◌,
  Bool-cases, inl, inr, arith, contains,
}
use veristc.Chart.Types.{PageDoc, PortDirection, Endpoint, Connection, interface_id, ports}
use veristc.Chart.Edit.{same_endpoint}
use veristc.Chart.Validity.{drivers, SingleDriver, UniqueIds, names}
use veristc.Editor.Inspector.{rename_port, rename_end}
use veristc.Editor.Renaming.{
  rename_port-NoDangling, rename_port-connections, rename_port_same, moved,
}
use veristc.Editor.Valid.{IsValid}
use veristc.Wiring.Commit.{same_endpoint_iff}

-- The end of a wire on a port of the page.
abbrev pub port_end : String → Endpoint
port_end name = record { block = interface_id; port = name }

-- The new name is driven by what drove it and by what drove the old one.
drivers-map-moved_new :
    (old name : String) (ws : List Connection)
    → (name == old) ≡ false
    → drivers (map (moved old name) ws) (port_end name)
      ≡ drivers ws (port_end name) + drivers ws (port_end old)
unfolding rename_end
drivers-map-moved_new old name [] h = omega arith
drivers-map-moved_new old name (c ∷ ws) h = ground (
  arith,
  drivers-map-moved_new old name ws h,
  eq_iff c.to.block interface_id,
  eq_iff c.to.port old,
  eq_iff c.to.port name,
  eq_iff name old,
  eq_refl name,
  eq_refl interface_id,
)

-- Every other pin has no more drivers than before.
drivers-map-moved_other :
    (old name : String) (e : Endpoint) (ws : List Connection)
    → same_endpoint (port_end name) e ≡ false
    → drivers (map (moved old name) ws) e ≤ drivers ws e
unfolding rename_end
drivers-map-moved_other old name e [] h = omega arith
drivers-map-moved_other old name e (c ∷ ws) h = ground (
  arith,
  drivers-map-moved_other old name e ws h,
  eq_iff c.to.block interface_id,
  eq_iff c.to.block e.block,
  eq_iff interface_id e.block,
)

rename_port-ids :
    (direction : PortDirection) (old name : String) (page : PageDoc)
    → UniqueIds page
    → UniqueIds (rename_port direction old name page)
unfolding rename_port
rename_port-ids direction old name page u = elim (Bool-cases (name == "" || name == old)) [
  | inl same ↦ rw same u
  | inr new ↦ rw new u
]

rename_port-SingleDriver :
    (direction : PortDirection) (old name : String) (page : PageDoc)
    → drivers page.connections (port_end name) ≡ 0
    → SingleDriver page
    → SingleDriver (rename_port direction old name page)
rename_port-SingleDriver direction old name page free d e =
    elim (Bool-cases (name == "" || name == old)) [
      | inl same ↦ rw (rename_port_same direction old name page same) (d e)
      | inr new ↦
          rw (rename_port-connections direction old name page new)
            (elim (Bool-cases (same_endpoint (port_end name) e)) [
              | inl here ↦
                  subst (λ x. drivers (map (moved old name) page.connections) x ≤ 1)
                    ((same_endpoint_iff (port_end name) e).0 here)
                    (omega (
                      arith,
                      drivers-map-moved_new old name page.connections (ground arith),
                      free,
                      d (port_end old),
                    ))
              | inr other ↦
                  omega (arith, drivers-map-moved_other old name e page.connections other, d e)
            ])
    ]

-- A port of the page that is renamed to a name that no wire ends on leaves a valid page.
pub rename_port-IsValid :
    (direction : PortDirection) (old name : String) (page : PageDoc)
    → contains (names (ports page.interface direction)) old ≡ true
    → drivers page.connections (port_end name) ≡ 0
    → IsValid page
    → IsValid (rename_port direction old name page)
rename_port-IsValid direction old name page has free v = record {
  ids = rename_port-ids direction old name page v.ids;
  wires = rename_port-NoDangling direction old name page has v.wires;
  driven = rename_port-SingleDriver direction old name page free v.driven;
}

-- A driven port that is renamed to the name of another driven port gives that name two drivers: the
-- name is not refused, and neither wire goes.
pub rename_port-doubles :
    (direction : PortDirection) (old name : String) (page : PageDoc)
    → name ≢ ""
    → name ≢ old
    → drivers page.connections (port_end old) ≡ 1
    → drivers page.connections (port_end name) ≡ 1
    → ¬ SingleDriver (rename_port direction old name page)
rename_port-doubles direction old name page full other a b d =
    let new : (name == "" || name == old) ≡ false =
      ground (arith, eq_iff name "", eq_iff name old) in
    let two : drivers (map (moved old name) page.connections) (port_end name) ≤ 1 =
      rw (← rename_port-connections direction old name page new) (d (port_end name)) in
    omega (arith, drivers-map-moved_new old name page.connections (ground arith))
