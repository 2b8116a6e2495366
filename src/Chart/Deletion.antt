-- ===== src/Chart/Deletion.antt =====
-- What deleting a selection does to the page (`deleteSelection`).
use veristc.Prelude.{
  ℕ, zero, suc, ◌≤◌, ◌≡◌, refl, ap, String, ◌==◌, eq_iff, Option, none, some, List, [], ◌∷◌, ◌++◌,
  map, Bool, true, false, not, ◌&&◌, ◌||◌, inl, inr, ◌↔◌, filter, erase_idx, length, take, drop,
  contains, All, All-erase_idx, In, Bool-cases, arith, count_p, filter-filter, In-filter, filter-In,
  count_p-filter-le,
}
use veristc.Chart.Types.{
  PageDoc, BlockNode, ConstantNode, Port, Endpoint, Connection, Selection, PortDirection,
  interface_id,
}
use veristc.Chart.Edit.{gone, drop_wires, delete_selection, wires_on, same_endpoint}
use veristc.Chart.Validity.{resolves, Resolved, NoDangling, SingleDriver}

-- Dropping the rows of one key keeps every other key.
contains-map-filter :
    {A : Type 0} (key : A → String) (k id : String) (xs : List A)
    → (k == id) ≡ false
    → contains (map key (filter (λ x. not (key x == id)) xs)) k ≡ contains (map key xs) k
contains-map-filter key k id [] h = refl
contains-map-filter key k id (x ∷ xs) h =
    ground
      (arith, contains-map-filter key k id xs h, eq_iff (key x) id, eq_iff (key x) k, eq_iff k id)

-- A wire end that does not fall with the element still names something.
resolves-delete_selection :
    (page : PageDoc) (sel : Selection) (e : Endpoint)
    → gone sel e ≡ false
    → resolves page e ≡ true
    → resolves (delete_selection page (some sel)) e ≡ true
unfolding gone delete_selection
resolves-delete_selection page (Selection.block id) e g r =
    ground (arith, contains-map-filter (λ (b : BlockNode). b.id) e.block id page.blocks)
resolves-delete_selection page (Selection.constant id) e g r =
    ground (arith, contains-map-filter (λ (b : ConstantNode). b.id) e.block id page.constants)
resolves-delete_selection page (Selection.wire i) e g r = r
resolves-delete_selection page (Selection.port PortDirection.input n) e g r =
    ground (arith, contains-map-filter (λ (b : Port). b.name) e.port n page.interface.input)
resolves-delete_selection page (Selection.port PortDirection.output n) e g r =
    ground (arith, contains-map-filter (λ (b : Port). b.name) e.port n page.interface.output)
resolves-delete_selection page (Selection.port PortDirection.in_out n) e g r =
    ground (arith, contains-map-filter (λ (b : Port). b.name) e.port n page.interface.in_out)

-- The test by which an element's deletion keeps a wire.
abbrev pub survives : Selection → Connection → Bool
survives sel c = not (gone sel c.from) && not (gone sel c.to)

-- A selection that is an element of the page, and no wire.
abbrev pub IsElement : Selection → Type 0
IsElement (Selection.wire i) = ⊥
IsElement _ = Unit

drop_wires_element :
    (sel : Selection) (ws : List Connection)
    → IsElement sel
    → drop_wires sel ws ≡ filter (survives sel) ws
unfolding drop_wires
drop_wires_element (Selection.block id) ws h = refl
drop_wires_element (Selection.constant id) ws h = refl
drop_wires_element (Selection.port d n) ws h = refl
drop_wires_element (Selection.wire i) ws h = absurd h

survivors-Resolved :
    (page : PageDoc) (sel : Selection) (ws : List Connection)
    → All (Resolved page) ws
    → All (Resolved (delete_selection page (some sel))) (filter (survives sel) ws)
survivors-Resolved page sel [] h = tt
survivors-Resolved page sel (c ∷ ws) h = elim (Bool-cases (survives sel c)) [
  | inl e ↦ rw e (
    (
      resolves-delete_selection page sel c.from (ground arith) h.0.0,
      resolves-delete_selection page sel c.to (ground arith) h.0.1,
    ),
    survivors-Resolved page sel ws h.1,
  )
  | inr e ↦ rw e (survivors-Resolved page sel ws h.1)
]

-- Deleting any selection from a page whose wires all end on elements leaves such a page.
pub delete_selection-NoDangling :
    (page : PageDoc) (sel : Option Selection)
    → NoDangling page
    → NoDangling (delete_selection page sel)
unfolding delete_selection
delete_selection-NoDangling page none h = h
delete_selection-NoDangling page (some (Selection.wire i)) h =
    All-erase_idx (Resolved page) page.connections i h
delete_selection-NoDangling page (some (Selection.block id)) h =
    survivors-Resolved page (Selection.block id) page.connections h
delete_selection-NoDangling page (some (Selection.constant id)) h =
    survivors-Resolved page (Selection.constant id) page.connections h
delete_selection-NoDangling page (some (Selection.port d n)) h =
    survivors-Resolved page (Selection.port d n) page.connections h

touching_none :
    (sel : Selection) (e : Endpoint) (ws : List Connection)
    → gone sel e ≡ true
    → length
        (filter (λ c. same_endpoint c.from e || same_endpoint c.to e) (filter (survives sel) ws))
      ≡ 0
unfolding gone
touching_none sel e [] g = refl
touching_none (Selection.block id) e (c ∷ ws) g = ground (
  arith,
  touching_none (Selection.block id) e ws g,
  eq_iff c.from.block e.block,
  eq_iff c.to.block e.block,
  eq_iff c.from.block id,
  eq_iff c.to.block id,
  eq_iff e.block id,
)
touching_none (Selection.constant id) e (c ∷ ws) g = ground (
  arith,
  touching_none (Selection.constant id) e ws g,
  eq_iff c.from.block e.block,
  eq_iff c.to.block e.block,
  eq_iff c.from.block id,
  eq_iff c.to.block id,
  eq_iff e.block id,
)
touching_none (Selection.wire i) e (c ∷ ws) g = cc
touching_none (Selection.port d n) e (c ∷ ws) g = ground (
  arith,
  touching_none (Selection.port d n) e ws g,
  eq_iff c.from.block e.block,
  eq_iff c.to.block e.block,
  eq_iff c.from.block interface_id,
  eq_iff c.to.block interface_id,
  eq_iff e.block interface_id,
  eq_iff c.from.port e.port,
  eq_iff c.to.port e.port,
  eq_iff c.from.port n,
  eq_iff c.to.port n,
  eq_iff e.port n,
)

-- The wire ends that belong to an element, said of the element alone.
abbrev pub OnElement : Selection → Endpoint → Type 0
OnElement (Selection.block id) e = e.block ≡ id
OnElement (Selection.constant id) e = e.block ≡ id
OnElement (Selection.port d n) e = (e.block ≡ interface_id) × (e.port ≡ n)
OnElement (Selection.wire i) e = ⊥

pub gone_iff : (sel : Selection) (e : Endpoint) → (gone sel e ≡ true) ↔ OnElement sel e
unfolding gone
gone_iff (Selection.block id) e = eq_iff e.block id
gone_iff (Selection.constant id) e = eq_iff e.block id
gone_iff (Selection.port d n) e = ground (arith, eq_iff e.block interface_id, eq_iff e.port n)
gone_iff (Selection.wire i) e = (λ h. cc h, λ h. absurd h)

delete_selection-connections :
    (page : PageDoc) (sel : Selection)
    → (delete_selection page (some sel)).connections ≡ drop_wires sel page.connections
unfolding delete_selection
delete_selection-connections page sel = refl

-- After an element is deleted, no wire of the page ends on any of its pins.
pub wires_on-delete_selection :
    (page : PageDoc) (sel : Selection) (e : Endpoint)
    → OnElement sel e
    → wires_on (delete_selection page (some sel)) e ≡ 0
unfolding wires_on delete_selection drop_wires
wires_on-delete_selection page (Selection.wire i) e g = absurd g
wires_on-delete_selection page (Selection.block id) e g =
    touching_none (Selection.block id) e page.connections ((gone_iff (Selection.block id) e).1 g)
wires_on-delete_selection page (Selection.constant id) e g =
    touching_none (Selection.constant id) e page.connections
      ((gone_iff (Selection.constant id) e).1 g)
wires_on-delete_selection page (Selection.port d n) e g =
    touching_none (Selection.port d n) e page.connections ((gone_iff (Selection.port d n) e).1 g)

-- Deleting an element keeps exactly the wires that end on none of its pins.
pub delete_selection-kept_iff :
    (page : PageDoc) (sel : Selection) (c : Connection)
    → IsElement sel
    → In c (delete_selection page (some sel)).connections
      ↔ (In c page.connections × (¬ OnElement sel c.from) × (¬ OnElement sel c.to))
delete_selection-kept_iff page sel c h =
    rw (delete_selection-connections page sel, drop_wires_element sel page.connections h)
      (
        λ m.
            let (kept, stays) = In-filter (survives sel) c page.connections m in
            (
              kept,
              λ on. ground (arith, (gone_iff sel c.from).1 on),
              λ on. ground (arith, (gone_iff sel c.to).1 on),
            ),
        λ k.
            filter-In (survives sel) c page.connections k.0
              (ground (arith, (gone_iff sel c.from).0, (gone_iff sel c.to).0)),
      )

erase_idx-eq-append :
    {A : Type 0} (xs : List A) (i : ℕ) → erase_idx xs i ≡ take i xs ++ drop (suc i) xs
erase_idx-eq-append [] zero = refl
erase_idx-eq-append [] (suc i) = refl
erase_idx-eq-append (x ∷ xs) zero = refl
erase_idx-eq-append (x ∷ xs) (suc i) = ap (x ∷◌) (erase_idx-eq-append xs i)

-- Deleting a wire takes that wire alone: those before it and those behind it stay, in order, and
-- no element goes.
pub delete_selection_wire :
    (page : PageDoc) (i : ℕ)
    → delete_selection page (some (Selection.wire i))
      ≡ record page { connections = take i page.connections ++ drop (suc i) page.connections }
unfolding delete_selection
delete_selection_wire page i =
    ap (λ ws. record page { connections = ws }) (erase_idx-eq-append page.connections i)

-- Deleting an element a second time changes nothing.
pub delete_selection_idempotent :
    (page : PageDoc) (sel : Selection)
    → IsElement sel
    → delete_selection (delete_selection page (some sel)) (some sel)
      ≡ delete_selection page (some sel)
unfolding delete_selection
delete_selection_idempotent page (Selection.block id) h = simp filter-filter
delete_selection_idempotent page (Selection.constant id) h = simp filter-filter
delete_selection_idempotent page (Selection.port PortDirection.input n) h = simp filter-filter
delete_selection_idempotent page (Selection.port PortDirection.output n) h = simp filter-filter
delete_selection_idempotent page (Selection.port PortDirection.in_out n) h = simp filter-filter
delete_selection_idempotent page (Selection.wire i) h = absurd h

count_p-erase_idx-le :
    {A : Type 0} (p : A → Bool) (xs : List A) (i : ℕ) → count_p p (erase_idx xs i) ≤ count_p p xs
count_p-erase_idx-le p [] i = omega arith
count_p-erase_idx-le p (x ∷ xs) zero = omega arith
count_p-erase_idx-le p (x ∷ xs) (suc i) = omega (arith, count_p-erase_idx-le p xs i)

-- A deletion gives no pin a second driver.
pub delete_selection-SingleDriver :
    (page : PageDoc) (sel : Option Selection)
    → SingleDriver page
    → SingleDriver (delete_selection page sel)
unfolding delete_selection
delete_selection-SingleDriver page none h e = h e
delete_selection-SingleDriver page (some (Selection.wire i)) h e =
    omega (arith, h e, count_p-erase_idx-le (λ c. same_endpoint c.to e) page.connections i)
delete_selection-SingleDriver page (some (Selection.block id)) h e = omega (
  arith,
  h e,
  count_p-filter-le (λ c. same_endpoint c.to e) (survives (Selection.block id)) page.connections,
)
delete_selection-SingleDriver page (some (Selection.constant id)) h e = omega (
  arith,
  h e,
  count_p-filter-le (λ c. same_endpoint c.to e) (survives (Selection.constant id)) page.connections,
)
delete_selection-SingleDriver page (some (Selection.port d n)) h e = omega (
  arith,
  h e,
  count_p-filter-le (λ c. same_endpoint c.to e) (survives (Selection.port d n)) page.connections,
)
