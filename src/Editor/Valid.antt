-- ===== src/Editor/Valid.antt =====
-- What a valid page is, and that the edits of the graph page keep it: the deletion, the wires and the
-- renaming of a port.
use veristc.Prelude.{
  ◌≡◌, refl, sym, subst, ap₂, String, Option, none, some, List, [], ◌∷◌, ◌++◌, map, filter, Bool,
  true, false, append-nil, Bool-cases, inl, inr, Nodup, contains, contains-append, arith, All,
}
use veristc.Chart.Types.{PageDoc, BlockNode, ConstantNode, Selection, Endpoint, Connection}
use veristc.Chart.Edit.{delete_selection}
use veristc.Chart.Validity.{
  block_ids, constant_ids, resolves, Resolved, NoDangling, SingleDriver, UniqueIds,
}
use veristc.Chart.Deletion.{delete_selection-NoDangling, delete_selection-SingleDriver}
use veristc.Wiring.Draft.{add_wire}
use veristc.Wiring.Commit.{add_wire-NoDangling, add_wire-SingleDriver, add_wire-UniqueIds}
use veristc.Editor.Shape.{SameShape}

-- Ids tell the elements apart, every wire ends on elements, and no pin has two drivers.
pub record IsValid (page : PageDoc) : Type 0 where
  pub ids : UniqueIds page
  pub wires : NoDangling page
  pub driven : SingleDriver page

SameShape-resolves : (p q : PageDoc) (e : Endpoint) → SameShape p q → resolves q e ≡ resolves p e
SameShape-resolves p q e s = rw (s.blocks, s.constants, s.inputs, s.outputs, s.in_outs) refl

SameShape-Resolved :
    (p q : PageDoc) (ws : List Connection)
    → SameShape p q
    → All (Resolved p) ws
    → All (Resolved q) ws
SameShape-Resolved p q [] s h = tt
SameShape-Resolved p q (c ∷ ws) s h = (
  (rw (SameShape-resolves p q c.from s) h.0.0, rw (SameShape-resolves p q c.to s) h.0.1),
  SameShape-Resolved p q ws s h.1,
)

pub SameShape-IsValid : (p q : PageDoc) → SameShape p q → IsValid p → IsValid q
SameShape-IsValid p q s v = record {
  ids = subst Nodup (ap₂ ◌++◌ (sym s.blocks) (sym s.constants)) v.ids;
  wires = rw (s.connections) (SameShape-Resolved p q p.connections s v.wires);
  driven = λ e. rw (s.connections) (v.driven e);
}

-- Without some of the items, their keys are still distinct, and no key is new.
contains-map-filter_less :
    {A : Type 0} (key : A → String) (p : A → Bool) (xs : List A) (a : String)
    → contains (map key xs) a ≡ false
    → contains (map key (filter p xs)) a ≡ false
contains-map-filter_less key p [] a h = refl
contains-map-filter_less key p (x ∷ xs) a h = ground (arith, contains-map-filter_less key p xs a)

Nodup-map-filter :
    {A : Type 0} (key : A → String) (p : A → Bool) (xs : List A) (ys : List String)
    → Nodup (map key xs ++ ys)
    → Nodup (map key (filter p xs) ++ ys)
Nodup-map-filter key p [] ys n = n
Nodup-map-filter key p (x ∷ xs) ys n = elim (Bool-cases (p x)) [
  | inl keep ↦ rw keep (
    ground (
      arith,
      n.0,
      contains-append (map key xs) ys (key x),
      contains-append (map key (filter p xs)) ys (key x),
      contains-map-filter_less key p xs (key x),
    ),
    Nodup-map-filter key p xs ys n.1,
  )
  | inr drop ↦ rw drop (Nodup-map-filter key p xs ys n.1)
]

Nodup-append-map-filter :
    {A : Type 0} (key : A → String) (p : A → Bool) (pre : List String) (xs : List A)
    → Nodup (pre ++ map key xs)
    → Nodup (pre ++ map key (filter p xs))
Nodup-append-map-filter key p [] xs n =
    subst Nodup (append-nil (map key (filter p xs)))
      (Nodup-map-filter key p xs [] (subst Nodup (sym (append-nil (map key xs))) n))
Nodup-append-map-filter key p (a ∷ pre) xs n = (
  ground (
    arith,
    n.0,
    contains-append pre (map key xs) a,
    contains-append pre (map key (filter p xs)) a,
    contains-map-filter_less key p xs a,
  ),
  Nodup-append-map-filter key p pre xs n.1,
)

-- A deletion keeps the ids of the elements distinct.
pub delete_selection-UniqueIds :
    (page : PageDoc) (sel : Option Selection)
    → UniqueIds page
    → UniqueIds (delete_selection page sel)
unfolding delete_selection
delete_selection-UniqueIds page none u = u
delete_selection-UniqueIds page (some (Selection.wire i)) u = u
delete_selection-UniqueIds page (some (Selection.port d n)) u = u
delete_selection-UniqueIds page (some (Selection.block id)) u =
    Nodup-map-filter (λ (b : BlockNode). b.id) _ page.blocks (constant_ids page) u
delete_selection-UniqueIds page (some (Selection.constant id)) u =
    Nodup-append-map-filter (λ (c : ConstantNode). c.id) _ (block_ids page) page.constants u

pub delete_selection-IsValid :
    (page : PageDoc) (sel : Option Selection) → IsValid page → IsValid (delete_selection page sel)
delete_selection-IsValid page sel v = record {
  ids = delete_selection-UniqueIds page sel v.ids;
  wires = delete_selection-NoDangling page sel v.wires;
  driven = delete_selection-SingleDriver page sel v.driven;
}

pub add_wire-IsValid :
    (source sink : Endpoint) (page : PageDoc)
    → resolves page source ≡ true
    → resolves page sink ≡ true
    → IsValid page
    → IsValid (add_wire source sink page)
add_wire-IsValid source sink page s t v = record {
  ids = add_wire-UniqueIds source sink page v.ids;
  wires = add_wire-NoDangling source sink page s t v.wires;
  driven = add_wire-SingleDriver source sink page v.driven;
}
