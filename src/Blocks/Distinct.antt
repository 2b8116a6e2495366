-- ===== src/Blocks/Distinct.antt =====
-- The symbols of the ports of a simulated block (components/library/BlockEditor.tsx).
use Prim.Native.String
use veristc.Prelude.{
  ◌≡◌, ◌≢◌, refl, arith, Bool-cases, inl, inr, ◌==◌, eq_iff, eq_refl, String, true, false, List, [],
  ◌∷◌, ◌++◌, length, contains, contains-append, Nodup, eq_false,
}
use veristc.Editor.Fresh.{unique_from_lem}
use veristc.Blocks.Types.{BlockPort}
use veristc.Blocks.Symbols.{
  cleaned_name, port_symbol, PortSymbol, symbols_of, symbol_names, taken_after, port_map,
}

-- The loop of `portSymbol` ends, and its symbol is a free one.
pub contains-port_symbol :
    (name : String) (taken : List String) → contains taken (port_symbol name taken) ≡ false
unfolding port_symbol
contains-port_symbol name taken = elim (Bool-cases (contains taken (cleaned_name name))) [
  | inl e ↦ rw e (
      let (k, same, low, free, before) =
        unique_from_lem 2 (length taken) 2 (String.◌++◌ (cleaned_name name) "_") taken
          (λ i lo hi. absurd (omega arith)) (omega arith) (omega arith) in
      rw same free)
  | inr e ↦ rw e e
]

-- Symbols that are given later are none of those that are taken.
symbols_of-free :
    (ps : List BlockPort) (taken : List String) (a : String)
    → contains taken a ≡ true
    → contains (symbol_names (symbols_of ps taken)) a ≡ false
unfolding symbols_of
symbols_of-free [] taken a h = refl
symbols_of-free (p ∷ ps) taken a h =
    let symbol : String = port_symbol p.name taken in
    ground (
      arith,
      contains-port_symbol p.name taken,
      symbols_of-free ps (symbol ∷ taken) a,
      eq_iff symbol a,
    )

pub symbols_of-Nodup :
    (ps : List BlockPort) (taken : List String) → Nodup (symbol_names (symbols_of ps taken))
unfolding symbols_of
symbols_of-Nodup [] taken = tt
symbols_of-Nodup (p ∷ ps) taken =
    let symbol : String = port_symbol p.name taken in
    (
      symbols_of-free ps (symbol ∷ taken) symbol (ground (arith, eq_refl symbol)),
      symbols_of-Nodup ps (symbol ∷ taken),
    )

taken_after-keeps :
    (ps : List PortSymbol) (taken : List String) (a : String)
    → contains taken a ≡ true
    → contains (taken_after ps taken) a ≡ true
taken_after-keeps [] taken a h = h
taken_after-keeps (p ∷ ps) taken a h = taken_after-keeps ps (p.symbol ∷ taken) a (ground arith)

taken_after-takes :
    (ps : List PortSymbol) (taken : List String) (a : String)
    → contains (symbol_names ps) a ≡ true
    → contains (taken_after ps taken) a ≡ true
taken_after-takes [] taken a h = absurd (cc h)
taken_after-takes (p ∷ ps) taken a h = elim (Bool-cases (p.symbol == a)) [
  | inl e ↦ taken_after-keeps ps (p.symbol ∷ taken) a (ground arith)
  | inr e ↦ taken_after-takes ps (p.symbol ∷ taken) a (ground arith)
]

append-Nodup :
    (xs ys : List String)
    → Nodup xs
    → Nodup ys
    → ((a : String) → contains xs a ≡ true → contains ys a ≡ false)
    → Nodup (xs ++ ys)
append-Nodup [] ys hx hy h = hy
append-Nodup (x ∷ xs) ys hx hy h = (
  ground (arith, contains-append xs ys x, h x, eq_refl x, hx.0),
  append-Nodup xs ys hx.1 hy (λ a m. h a (ground arith)),
)

-- The symbols of all inputs and outputs of a block are distinct, where it is no function block; the
-- outputs of one are read through its instance.
pub port_map-Nodup :
    (block_kind : String) (inputs outputs : List BlockPort)
    → block_kind ≢ "FB"
    → Nodup (
        symbol_names (port_map block_kind inputs outputs).inputs
        ++ symbol_names (port_map block_kind inputs outputs).outputs)
unfolding port_map
port_map-Nodup block_kind inputs outputs h =
    let first : List PortSymbol = symbols_of inputs [] in
    rw (eq_false block_kind "FB" h) (
      append-Nodup (symbol_names first) (symbol_names (symbols_of outputs (taken_after first [])))
        (symbols_of-Nodup inputs []) (symbols_of-Nodup outputs (taken_after first []))
        (λ a m. symbols_of-free outputs (taken_after first []) a (taken_after-takes first [] a m)))
