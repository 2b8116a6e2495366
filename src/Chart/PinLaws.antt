-- ===== src/Chart/PinLaws.antt =====
-- The elements that pins name, and the keys of pins (`pinMap`, `pinKey`).
use mathlib.Core.List.{flat_map}
use Prim.Native.Char.{Char}
use text.Mathlib.TextLemmas.{nil-append, cons-append, head-eq_of_cons-eq, tail-eq_of_cons-eq}
use veristc.Prelude.{
  ℕ, suc, ℤ, ◌≡◌, ◌≢◌, refl, ap, ap₂, sym, ◌∙◌, String, eq_iff, eq_refl, List, [], ◌∷◌, map, Bool,
  true, false, ◌&&◌, inl, inr, ◌↔◌, All, All-append, All-mono, In, contains, contains_iff, arith,
  In-map, is_nil, if◌then◌else◌, subst,
}
use veristc.Chart.Types.{
  PageDoc, Port, BlockNode, ConstantNode, LibraryPin, PinPoint, Position, PinDirection,
  PortDirection, Endpoint, interface_id, ports,
}
use veristc.Chart.Pins.{
  Library, pin_map, block_pins, block_side, pins_of, placeholder_pin, constant_pin, interface_rows,
  port_pins, connectable, pin_key,
}
use veristc.Chart.Validity.{resolves, block_ids, names}

abbrev pub pin_end : PinPoint → Endpoint
pin_end p = record { block = p.block; port = p.port }

abbrev Named : PageDoc → PinPoint → Type 0
Named page p = resolves page (pin_end p) ≡ true

All-flat_map :
    {A B : Type 0} (P : B → Type 0) (f : A → List B) (xs : List A)
    → ((x : A) → In x xs → All P (f x))
    → All P (flat_map f xs)
unfolding flat_map
All-flat_map P f [] h = tt
All-flat_map P f (x ∷ xs) h =
    All-append P (f x) (flat_map f xs) (h x (inl refl)) (All-flat_map P f xs (λ y m. h y (inr m)))

block_side-block :
    (b : BlockNode) (x : ℤ) (d : PinDirection) (i : ℕ) (pins : List LibraryPin)
    → All (λ p. p.block ≡ b.id) (block_side b x d i pins)
unfolding block_side
block_side-block b x d i [] = tt
block_side-block b x d i (pin ∷ pins) = (refl, block_side-block b x d (suc i) pins)

block_pins-block :
    (library : Library) (b : BlockNode) → All (λ p. p.block ≡ b.id) (block_pins library b)
unfolding block_pins
block_pins-block library b =
    All-append P (block_side b _ PinDirection.input 0 (pins_of b library).inputs) _
      (block_side-block b _ PinDirection.input 0 (pins_of b library).inputs)
      (All-append P (block_side b _ PinDirection.output 0 (pins_of b library).outputs) _
        (block_side-block b _ PinDirection.output 0 (pins_of b library).outputs)
        (last (is_nil (pins_of b library).inputs && is_nil (pins_of b library).outputs)))
  where
    P : PinPoint → Type 0
    P p = p.block ≡ b.id

    last : (t : Bool) → All P (if t then placeholder_pin b (pins_of b library) ∷ [] else [])
    last true = (refl, tt)
    last false = tt

contains-map :
    {A : Type 0} (f : A → String) (x : A) (xs : List A) → In x xs → contains (map f xs) (f x) ≡ true
contains-map f x xs m = (contains_iff (map f xs) (f x)).1 (In-map f x xs m)

port_resolves :
    (page : PageDoc) (d : PortDirection) (name : String)
    → contains (names (ports page.interface d)) name ≡ true
    → resolves page (record { block = interface_id; port = name }) ≡ true
port_resolves page PortDirection.input name h = ground (arith, eq_refl interface_id)
port_resolves page PortDirection.output name h = ground (arith, eq_refl interface_id)
port_resolves page PortDirection.in_out name h = ground (arith, eq_refl interface_id)

port_pins-Named :
    (page : PageDoc) (d d' : PortDirection) (port : Port) (at : Position)
    → contains (names (ports page.interface d')) port.name ≡ true
    → All (Named page) (port_pins d port at)
unfolding port_pins
port_pins-Named page PortDirection.input d' port at h = (port_resolves page d' port.name h, tt)
port_pins-Named page PortDirection.output d' port at h = (port_resolves page d' port.name h, tt)
port_pins-Named page PortDirection.in_out d' port at h =
    (port_resolves page d' port.name h, (port_resolves page d' port.name h, tt))

interface_rows-Named :
    (page : PageDoc) (d : PortDirection) (i : ℕ) (rows : List Port)
    → ((p : Port) → In p rows → In p (ports page.interface d))
    → All (Named page) (interface_rows page d i rows)
unfolding interface_rows
interface_rows-Named page d i [] h = tt
interface_rows-Named page d i (p ∷ rows) h =
    All-append (Named page) (port_pins d p _) _
      (port_pins-Named page d d p _
        (contains-map (λ (q : Port). q.name) p (ports page.interface d) (h p (inl refl))))
      (interface_rows-Named page d (suc i) rows (λ q m. h q (inr m)))

-- Every pin that the sheet shows belongs to an element of the page.
pub pin_map-Named :
    (page : PageDoc) (library : Library)
    → All (λ p. resolves page (pin_end p) ≡ true) (pin_map page library)
unfolding pin_map constant_pin
pin_map-Named page library =
    All-append (Named page) (flat_map (block_pins library) page.blocks) _
      (All-flat_map (Named page) (block_pins library) page.blocks (λ b m.
        All-mono
          (λ p e. ground (
            arith,
            subst (λ k. contains (block_ids page) k ≡ true) (sym e)
                (contains-map (λ (b : BlockNode). b.id) b page.blocks m),
          ))
          (block_pins library b) (block_pins-block library b)))
      (All-append (Named page) (map constant_pin page.constants) _
        (constants page.constants (λ c m. m))
        (All-append (Named page) (interface_rows page PortDirection.input 0 page.interface.input) _
          (interface_rows-Named page PortDirection.input 0 page.interface.input (λ p m. m))
          (All-append (Named page)
            (interface_rows page PortDirection.output 0 page.interface.output) _
            (interface_rows-Named page PortDirection.output 0 page.interface.output (λ p m. m))
            (interface_rows-Named page PortDirection.in_out 0 page.interface.in_out (λ p m. m)))))
  where
    constants :
        (cs : List ConstantNode)
        → ((c : ConstantNode) → In c cs → In c page.constants)
        → All (Named page) (map constant_pin cs)
    constants [] h = tt
    constants (c ∷ cs) h = (
      ground (arith, contains-map (λ (k : ConstantNode). k.id) c page.constants (h c (inl refl))),
      constants cs (λ k m. h k (inr m)),
    )

abbrev pub dot : Char
dot = "."

-- A name without a dot.
abbrev pub NoDot : String → Type 0
NoDot String.[] = Unit
NoDot (String.◌∷◌ c s) = (c ≢ dot) × NoDot s

pin_key-nil : (p : String) → pin_key "" p ≡ String.◌∷◌ dot p
unfolding pin_key
pin_key-nil p = nil-append _ ∙ cons-append dot "" p ∙ ap (String.◌∷◌ dot) (nil-append p)

pin_key-cons : (c : Char) (a p : String) → pin_key (String.◌∷◌ c a) p ≡ String.◌∷◌ c (pin_key a p)
unfolding pin_key
pin_key-cons c a p = cons-append c a _

-- The key of a pin determines it, if the names of blocks hold no dot.
pub pin_key_inj :
    (a b p q : String) → NoDot a → NoDot b → pin_key a p ≡ pin_key b q → (a ≡ b) × (p ≡ q)
pin_key_inj String.[] String.[] p q h k e =
    (refl, tail-eq_of_cons-eq (sym (pin_key-nil p) ∙ e ∙ pin_key-nil q))
pin_key_inj String.[] (String.◌∷◌ c b) p q h k e =
    absurd (k.0 (sym (head-eq_of_cons-eq (sym (pin_key-nil p) ∙ e ∙ pin_key-cons c b q))))
pin_key_inj (String.◌∷◌ c a) String.[] p q h k e =
    absurd (h.0 (head-eq_of_cons-eq (sym (pin_key-cons c a p) ∙ e ∙ pin_key-nil q)))
pin_key_inj (String.◌∷◌ c a) (String.◌∷◌ d b) p q h k e =
    let both = sym (pin_key-cons c a p) ∙ e ∙ pin_key-cons d b q in
    let (same_block, same_port) = pin_key_inj a b p q h.1 k.1 (tail-eq_of_cons-eq both) in
    (ap₂ String.◌∷◌ (head-eq_of_cons-eq both) same_block, same_port)

-- Two pins, of blocks named without a dot, may be wired exactly if they differ in block or port name and
-- have opposite directions. So the input and the output of one in_out port may not.
pub connectable_iff :
    (a b : PinPoint)
    → NoDot a.block
    → NoDot b.block
    → (connectable a b ≡ true) ↔ ((pin_end a ≢ pin_end b) × (a.direction ≢ b.direction))
unfolding connectable
connectable_iff a b h k = ground (
  arith,
  eq_iff a.block b.block,
  eq_iff a.port b.port,
  eq_iff (pin_key a.block a.port) (pin_key b.block b.port),
  pin_key_inj a.block b.block a.port b.port h k,
)
