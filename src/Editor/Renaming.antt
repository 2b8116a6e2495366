-- ===== src/Editor/Renaming.antt =====
-- The wires after a port or a block is renamed (components/graph/Inspector.tsx).
use veristc.Prelude.{
  ◌≡◌, ◌≢◌, refl, sym, subst, String, ◌==◌, eq_iff, eq_refl, List, [], ◌∷◌, map, true, false, ◌||◌,
  All, In, contains, All-In-get, arith, Bool-cases, inl, inr, if◌then◌else◌, ◌⊎◌,
}
use veristc.Chart.Types.{
  PageDoc, Port, BlockNode, PortDirection, Endpoint, Connection, ports, interface_id,
}
use veristc.Chart.Validity.{constant_ids, names, resolves, Resolved, NoDangling}
use veristc.Editor.Inspector.{patch_rows, rename_block, rename_end, rename_port}

abbrev named : String → Port → Port
named name p = record p { name = name }

-- The old name gives way to the new one, and every other name stays.
contains-patch_rows_other :
    (old name k : String) (rows : List Port)
    → (k == old) ≡ false
    → contains (names rows) k ≡ true
    → contains (names (patch_rows old (named name) rows)) k ≡ true
contains-patch_rows_other old name k [] n h = h
contains-patch_rows_other old name k (p ∷ rows) n h = ground (
  arith,
  contains-patch_rows_other old name k rows n,
  eq_iff p.name old,
  eq_iff p.name k,
  eq_iff k old,
)

contains-patch_rows_new :
    (old name : String) (rows : List Port)
    → contains (names rows) old ≡ true
    → contains (names (patch_rows old (named name) rows)) name ≡ true
contains-patch_rows_new old name [] h = absurd (cc h)
contains-patch_rows_new old name (p ∷ rows) h =
    ground (arith, contains-patch_rows_new old name rows, eq_refl name)

rename_end-resolves :
    (direction : PortDirection) (old name : String) (page : PageDoc) (e : Endpoint)
    → contains (names (ports page.interface direction)) old ≡ true
    → (name == "") ≡ false
    → (name == old) ≡ false
    → resolves page e ≡ true
    → resolves (rename_port direction old name page) (rename_end old name e) ≡ true
unfolding rename_port rename_end
rename_end-resolves PortDirection.input old name page e h a b r = ground (
  arith,
  contains-patch_rows_other old name e.port page.interface.input,
  contains-patch_rows_new old name page.interface.input,
  eq_refl interface_id,
)
rename_end-resolves PortDirection.output old name page e h a b r = ground (
  arith,
  contains-patch_rows_other old name e.port page.interface.output,
  contains-patch_rows_new old name page.interface.output,
  eq_refl interface_id,
)
rename_end-resolves PortDirection.in_out old name page e h a b r = ground (
  arith,
  contains-patch_rows_other old name e.port page.interface.in_out,
  contains-patch_rows_new old name page.interface.in_out,
  eq_refl interface_id,
)

All-map :
    {A B : Type 0} (P : A → Type 0) (Q : B → Type 0) (f : A → B) (xs : List A)
    → ((x : A) → P x → Q (f x))
    → All P xs
    → All Q (map f xs)
All-map P Q f [] g h = tt
All-map P Q f (x ∷ xs) g h = (g x h.0, All-map P Q f xs g h.1)

abbrev pub moved : String → String → Connection → Connection
moved old name c = record { from = rename_end old name c.from; to = rename_end old name c.to }

pub rename_port_same :
    (direction : PortDirection) (old name : String) (page : PageDoc)
    → (name == "" || name == old) ≡ true
    → rename_port direction old name page ≡ page
unfolding rename_port
rename_port_same direction old name page h = rw h

pub rename_port-connections :
    (direction : PortDirection) (old name : String) (page : PageDoc)
    → (name == "" || name == old) ≡ false
    → (rename_port direction old name page).connections ≡ map (moved old name) page.connections
unfolding rename_port
rename_port-connections direction old name page h = rw h

-- Renaming a port that the page has takes its wires along: no wire is left hanging.
pub rename_port-NoDangling :
    (direction : PortDirection) (old name : String) (page : PageDoc)
    → contains (names (ports page.interface direction)) old ≡ true
    → NoDangling page
    → NoDangling (rename_port direction old name page)
rename_port-NoDangling direction old name page p h = elim (Bool-cases (name == "" || name == old)) [
  | inl same ↦ subst NoDangling (sym (rename_port_same direction old name page same)) h
  | inr new ↦
      subst (All (Resolved (rename_port direction old name page)))
        (sym (rename_port-connections direction old name page new))
        (All-map (Resolved page) (Resolved (rename_port direction old name page)) (moved old name)
          page.connections
          (λ c r. (
            rename_end-resolves direction old name page c.from p (ground arith) (ground arith) r.0,
            rename_end-resolves direction old name page c.to p (ground arith) (ground arith) r.1,
          ))
          h)
]

contains-renamed :
    (old id : String) (bs : List BlockNode)
    → old ≢ id
    → contains
        (map
          (λ (b : BlockNode). b.id)
          (map (λ (b : BlockNode). if b.id == old then record b { id = id } else b) bs))
        old
      ≡ false
contains-renamed old id [] n = refl
contains-renamed old id (b ∷ bs) n =
    ground (arith, contains-renamed old id bs n, eq_iff b.id old, eq_iff id old)

rename_block-not_resolves :
    (old id : String) (page : PageDoc) (e : Endpoint)
    → old ≢ id
    → old ≢ interface_id
    → contains (constant_ids page) old ≡ false
    → e.block ≡ old
    → resolves (rename_block old id page) e ≡ false
unfolding rename_block
rename_block-not_resolves old id page e n i c h =
    subst (λ k. resolves (rename_block old id page) (record e { block = k }) ≡ false) (sym h)
      (ground (arith, contains-renamed old id page.blocks n, eq_iff old interface_id))

-- Renaming a block that carries a wire leaves that wire without its end, whatever the page, if no
-- constant goes by the old id: the wires keep that id.
pub rename_block-dangles :
    (old id : String) (page : PageDoc) (c : Connection)
    → old ≢ id
    → old ≢ interface_id
    → contains (constant_ids page) old ≡ false
    → In c page.connections
    → (c.from.block ≡ old) ⊎ (c.to.block ≡ old)
    → ¬ NoDangling (rename_block old id page)
unfolding rename_block
rename_block-dangles old id page c n i k m e h =
    let ends = All-In-get (Resolved (rename_block old id page)) c page.connections h m in
    elim e [
      | inl q ↦ cc (ends.0, rename_block-not_resolves old id page c.from n i k q)
      | inr q ↦ cc (ends.1, rename_block-not_resolves old id page c.to n i k q)
    ]
