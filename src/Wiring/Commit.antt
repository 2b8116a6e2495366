-- ===== src/Wiring/Commit.antt =====
-- What a committed wire does to the page (`commitDraft`).
use veristc.Prelude.{
  ◌≤◌, ◌≡◌, ◌≢◌, refl, eq_iff, eq_refl, List, [], ◌∷◌, ◌++◌, Bool, true, false, not, inl, inr, any,
  filter, count_p-append, All-append, All-filter, Bool-cases, arith, append-nil, length, ◌↔◌, subst,
  ap,
}
use veristc.Chart.Types.{PageDoc, Endpoint, Connection}
use veristc.Chart.Edit.{same_endpoint, same_connection, driver_on}
use veristc.Chart.Validity.{UniqueIds, drivers, SingleDriver, resolves, Resolved, NoDangling}
use veristc.Wiring.Draft.{add_wire}

pub same_endpoint_refl : (e : Endpoint) → same_endpoint e e ≡ true
same_endpoint_refl e = simp eq_refl

-- The wires that drive a pin, in order.
abbrev pub driving : Endpoint → List Connection → List Connection
driving e ws = filter (λ c. same_endpoint c.to e) ws

-- Dropping the wires into `sink` leaves none of them, and those into another pin as they were.
drivers-drop :
    (sink : Endpoint) (ws : List Connection)
    → drivers (filter (λ c. not (same_connection c c.from sink)) ws) sink ≡ 0
unfolding same_connection
drivers-drop sink [] = refl
drivers-drop sink (c ∷ ws) =
    ground (arith, drivers-drop sink ws, eq_refl c.from.block, eq_refl c.from.port)

driving-drop :
    (sink e : Endpoint) (ws : List Connection)
    → same_endpoint sink e ≡ false
    → driving e (filter (λ c. not (same_connection c c.from sink)) ws) ≡ driving e ws
unfolding same_connection
driving-drop sink e [] h = refl
driving-drop sink e (c ∷ ws) h = ground (
  arith,
  driving-drop sink e ws,
  eq_refl c.from.block,
  eq_refl c.from.port,
  eq_iff c.to.block sink.block,
  eq_iff c.to.port sink.port,
  eq_iff c.to.block e.block,
  eq_iff c.to.port e.port,
  eq_iff sink.block e.block,
  eq_iff sink.port e.port,
)

drivers-none :
    (sink : Endpoint) (ws : List Connection)
    → any (λ c. same_endpoint c.to sink) ws ≡ false
    → drivers ws sink ≡ 0
drivers-none sink [] h = refl
drivers-none sink (c ∷ ws) h = ground (arith, drivers-none sink ws)

drivers-some :
    (source sink : Endpoint) (ws : List Connection)
    → any (λ c. same_connection c source sink) ws ≡ true
    → 1 ≤ drivers ws sink
unfolding same_connection
drivers-some source sink [] h = absurd (cc h)
drivers-some source sink (c ∷ ws) h = ground (arith, drivers-some source sink ws)

keep_all :
    (sink : Endpoint) (ws : List Connection)
    → any (λ c. same_endpoint c.to sink) ws ≡ false
    → filter (λ c. not (same_connection c c.from sink)) ws ≡ ws
unfolding same_connection
keep_all sink [] h = refl
keep_all sink (c ∷ ws) h =
    ground (arith, keep_all sink ws, eq_refl c.from.block, eq_refl c.from.port)

abbrev present : Endpoint → Endpoint → PageDoc → Bool
present source sink doc = any (λ c. same_connection c source sink) doc.connections

abbrev rewired : Endpoint → Endpoint → PageDoc → List Connection
rewired source sink doc =
    filter (λ c. not (same_connection c c.from sink)) doc.connections
    ++ record { from = source; to = sink } ∷ []

-- Both branches of a new wire are one: what fed the input goes, and the wire comes last.
add_wire_new :
    (source sink : Endpoint) (doc : PageDoc)
    → present source sink doc ≡ false
    → add_wire source sink doc ≡ record doc { connections = rewired source sink doc }
unfolding add_wire driver_on
add_wire_new source sink doc h =
    elim (Bool-cases (any (λ c. same_endpoint c.to sink) doc.connections)) [
      | inl driven ↦ rw (h, driven)
      | inr free ↦ rw (h, free, keep_all sink doc.connections free)
    ]

add_wire_old :
    (source sink : Endpoint) (doc : PageDoc)
    → present source sink doc ≡ true
    → add_wire source sink doc ≡ doc
unfolding add_wire
add_wire_old source sink doc h = rw h

drivers-rewired_self :
    (source sink : Endpoint) (doc : PageDoc) → drivers (rewired source sink doc) sink ≡ 1
drivers-rewired_self source sink doc = ground (
  arith,
  drivers-drop sink doc.connections,
  same_endpoint_refl sink,
  count_p-append (λ c. same_endpoint c.to sink)
      (filter (λ c. not (same_connection c c.from sink)) doc.connections)
      (record { from = source; to = sink } ∷ []),
)

filter-append :
    (p : Connection → Bool) (xs ys : List Connection)
    → filter p (xs ++ ys) ≡ filter p xs ++ filter p ys
filter-append p [] ys = refl
filter-append p (x ∷ xs) ys = ground (arith, filter-append p xs ys)

driving-rewired :
    (source sink e : Endpoint) (doc : PageDoc)
    → same_endpoint sink e ≡ false
    → driving e (rewired source sink doc) ≡ driving e doc.connections
driving-rewired source sink e doc h =
    simp (filter-append, driving-drop sink e doc.connections h, h, append-nil)

drivers-driving : (e : Endpoint) (ws : List Connection) → drivers ws e ≡ length (driving e ws)
drivers-driving e [] = refl
drivers-driving e (c ∷ ws) = ground (arith, drivers-driving e ws)

pub same_endpoint_iff : (a b : Endpoint) → (same_endpoint a b ≡ true) ↔ (a ≡ b)
same_endpoint_iff a b = ground (arith, eq_iff a.block b.block, eq_iff a.port b.port)

-- Committing a wire keeps every input pin at one source at most.
pub add_wire-SingleDriver :
    (source sink : Endpoint) (doc : PageDoc)
    → SingleDriver doc
    → SingleDriver (add_wire source sink doc)
add_wire-SingleDriver source sink doc h e = elim (Bool-cases (present source sink doc)) [
  | inl old ↦ rw (add_wire_old source sink doc old) (h e)
  | inr new ↦ rw (add_wire_new source sink doc new) (elim (Bool-cases (same_endpoint sink e)) [
    | inl same ↦
        subst (λ x. drivers (rewired source sink doc) x ≤ 1) ((same_endpoint_iff sink e).0 same)
          (omega (arith, drivers-rewired_self source sink doc))
    | inr other ↦ omega (
      arith,
      h e,
      drivers-driving e doc.connections,
      drivers-driving e (rewired source sink doc),
      ap length (driving-rewired source sink e doc other),
    )
  ])
]

any-append_last :
    (p : Connection → Bool) (xs : List Connection) (c : Connection)
    → p c ≡ true
    → any p (xs ++ c ∷ []) ≡ true
any-append_last p [] c h = rw h
any-append_last p (x ∷ xs) c h = ground (arith, any-append_last p xs c h)

add_wire-present :
    (source sink : Endpoint) (doc : PageDoc) → present source sink (add_wire source sink doc) ≡ true
unfolding same_connection
add_wire-present source sink doc = elim (Bool-cases (present source sink doc)) [
  | inl old ↦ rw (add_wire_old source sink doc old) old
  | inr new ↦ rw (add_wire_new source sink doc new) (
      any-append_last (λ c. same_connection c source sink)
        (filter (λ c. not (same_connection c c.from sink)) doc.connections)
        (record { from = source; to = sink })
        (ground (arith, same_endpoint_refl source, same_endpoint_refl sink)))
]

-- On a page where no pin is driven twice, a committed wire is the one and only driver of its input.
pub add_wire-drives :
    (source sink : Endpoint) (doc : PageDoc)
    → SingleDriver doc
    → (drivers (add_wire source sink doc).connections sink ≡ 1)
      × (any (λ c. same_connection c source sink) (add_wire source sink doc).connections ≡ true)
add_wire-drives source sink doc h = elim (Bool-cases (present source sink doc)) [
  | inl old ↦ (
    rw (add_wire_old source sink doc old)
        (omega (arith, h sink, drivers-some source sink doc.connections old)),
    add_wire-present source sink doc,
  )
  | inr new ↦ (
    rw (add_wire_new source sink doc new) (drivers-rewired_self source sink doc),
    add_wire-present source sink doc,
  )
]

-- The wires into every other pin stay as they were, in order.
pub add_wire-others :
    (source sink e : Endpoint) (doc : PageDoc)
    → sink ≢ e
    → driving e (add_wire source sink doc).connections ≡ driving e doc.connections
add_wire-others source sink e doc h = elim (Bool-cases (present source sink doc)) [
  | inl old ↦ rw (add_wire_old source sink doc old)
  | inr new ↦
      rw (add_wire_new source sink doc new)
        (driving-rewired source sink e doc (ground (arith, same_endpoint_iff sink e)))
]

-- Committing the same wire again changes nothing.
pub add_wire_idempotent :
    (source sink : Endpoint) (doc : PageDoc)
    → add_wire source sink (add_wire source sink doc) ≡ add_wire source sink doc
add_wire_idempotent source sink doc =
    add_wire_old source sink (add_wire source sink doc) (add_wire-present source sink doc)

-- A wire between pins of the page keeps every wire end on an element.
pub add_wire-NoDangling :
    (source sink : Endpoint) (doc : PageDoc)
    → resolves doc source ≡ true
    → resolves doc sink ≡ true
    → NoDangling doc
    → NoDangling (add_wire source sink doc)
add_wire-NoDangling source sink doc s t h = elim (Bool-cases (present source sink doc)) [
  | inl old ↦ rw (add_wire_old source sink doc old) h
  | inr new ↦ rw (add_wire_new source sink doc new) (
      All-append (Resolved doc) (filter (λ c. not (same_connection c c.from sink)) doc.connections)
        (record { from = source; to = sink } ∷ [])
        (All-filter (Resolved doc) (λ c. not (same_connection c c.from sink)) doc.connections h)
        ((s, t), tt))
]

-- A wire changes no id.
pub add_wire-UniqueIds :
    (source sink : Endpoint) (doc : PageDoc) → UniqueIds doc → UniqueIds (add_wire source sink doc)
add_wire-UniqueIds source sink doc u = elim (Bool-cases (present source sink doc)) [
  | inl old ↦ rw (add_wire_old source sink doc old) u
  | inr new ↦ rw (add_wire_new source sink doc new) u
]
