-- ===== src/Editor/Unwired.antt =====
-- Giving a block or a constant that no wire ends on another id (the fields with the ids in
-- components/graph/Inspector.tsx).
use veristc.Prelude.{
  ◌≡◌, ◌≢◌, refl, sym, ap, ap₂, subst, String, ◌==◌, eq_iff, if◌then◌else◌, List, [], ◌∷◌, ◌++◌,
  map, true, false, Bool-cases, inl, inr, Nodup, contains, contains-append, append-nil, arith, All,
}
use veristc.Chart.Types.{PageDoc, BlockNode, ConstantNode, Endpoint, Connection}
use veristc.Chart.Validity.{block_ids, constant_ids, element_ids, resolves, Resolved}
use veristc.Editor.Inspector.{rename_block, patch_constant}
use veristc.Editor.Valid.{IsValid}

abbrev renamed : String → String → List String → List String
renamed old id xs = map (λ x. if x == old then id else x) xs

-- No wire ends on an element.
abbrev pub Unwired : String → List Connection → Type 0
Unwired id ws = All (λ (c : Connection). (c.from.block ≢ id) × (c.to.block ≢ id)) ws

map-renamed :
    {A : Type 0} (key : A → String) (set : A → A) (old id : String) (xs : List A)
    → ((x : A) → key (set x) ≡ id)
    → map key (map (λ x. if key x == old then set x else x) xs) ≡ renamed old id (map key xs)
map-renamed key set old id [] h = refl
map-renamed key set old id (x ∷ xs) h = elim (Bool-cases (key x == old)) [
  | inl e ↦ rw e (ap₂ ◌∷◌ (h x) (map-renamed key set old id xs h))
  | inr e ↦ rw e (ap (key x ∷◌) (map-renamed key set old id xs h))
]

module _ (old id : String) where
  renamed_absent : (xs : List String) → contains xs old ≡ false → renamed old id xs ≡ xs
  renamed_absent [] h = refl
  renamed_absent (x ∷ xs) h = elim (Bool-cases (x == old)) [
    | inl e ↦ absurd (ground arith)
    | inr e ↦ rw e (ap (x ∷◌) (renamed_absent xs (ground arith)))
  ]

  contains-renamed_less :
      (a : String) (xs : List String)
      → a ≢ id
      → contains xs a ≡ false
      → contains (renamed old id xs) a ≡ false
  contains-renamed_less a [] n h = refl
  contains-renamed_less a (x ∷ xs) n h =
      ground (arith, contains-renamed_less a xs n, eq_iff id a, eq_iff a id)

  contains-renamed_kept :
      (a : String) (xs : List String)
      → a ≢ old
      → contains xs a ≡ true
      → contains (renamed old id xs) a ≡ true
  contains-renamed_kept a [] n h = absurd (cc h)
  contains-renamed_kept a (x ∷ xs) n h =
      ground (arith, contains-renamed_kept a xs n, eq_iff x a, eq_iff x old)

  Nodup-renamed_front :
      (xs ys : List String)
      → contains (xs ++ ys) id ≡ false
      → Nodup (xs ++ ys)
      → Nodup (renamed old id xs ++ ys)
  Nodup-renamed_front [] ys h n = n
  Nodup-renamed_front (x ∷ xs) ys h n =
      let free : contains (xs ++ ys) id ≡ false = ground arith in
      let rest = Nodup-renamed_front xs ys free n.1 in
      elim (Bool-cases (x == old)) [
        | inl e ↦
            let here : x ≡ old = (eq_iff x old).0 e in
            let absent : contains xs old ≡ false =
              subst (λ a. contains xs a ≡ false) here
                (ground (arith, contains-append xs ys x, n.0)) in
            rw e (rw (renamed_absent xs absent) free, rest)
        | inr e ↦ rw e (
          ground (
            arith,
            contains-append (renamed old id xs) ys x,
            contains-append xs ys x,
            contains-renamed_less x xs,
            eq_iff x id,
            n.0,
          ),
          rest,
        )
      ]

  Nodup-renamed_behind :
      (xs ys : List String)
      → contains (xs ++ ys) id ≡ false
      → Nodup (xs ++ ys)
      → Nodup (xs ++ renamed old id ys)
  Nodup-renamed_behind [] [] h n = tt
  Nodup-renamed_behind [] (y ∷ ys) h n = subst Nodup (append-nil (renamed old id (y ∷ ys))) (
      Nodup-renamed_front (y ∷ ys) []
        (subst (λ l. contains l id ≡ false) (sym (append-nil (y ∷ ys))) h)
        (subst Nodup (sym (append-nil (y ∷ ys))) n))
  Nodup-renamed_behind (x ∷ xs) ys h n = (
    ground (
      arith,
      contains-append xs (renamed old id ys) x,
      contains-append xs ys x,
      contains-renamed_less x ys,
      eq_iff x id,
      n.0,
    ),
    Nodup-renamed_behind xs ys (ground arith) n.1,
  )

module _ (old id : String) (page : PageDoc) where
  block_end :
      (e : Endpoint)
      → e.block ≢ old
      → resolves page e ≡ true
      → resolves (rename_block old id page) e ≡ true
  unfolding rename_block
  block_end e other h =
      rw
        (map-renamed (λ (b : BlockNode). b.id) (λ (b : BlockNode). record b { id = id }) old id
          page.blocks (λ b. refl))
        (ground (arith, contains-renamed_kept old id e.block (block_ids page) other))

  constant_end :
      (e : Endpoint)
      → e.block ≢ old
      → resolves page e ≡ true
      → resolves (patch_constant old (λ c. record c { id = id }) page) e ≡ true
  unfolding patch_constant
  constant_end e other h =
      rw
        (map-renamed (λ (c : ConstantNode). c.id) (λ (c : ConstantNode). record c { id = id }) old
          id page.constants (λ c. refl))
        (ground (arith, contains-renamed_kept old id e.block (constant_ids page) other))

  ends :
      (q : PageDoc) (ws : List Connection)
      → ((e : Endpoint) → e.block ≢ old → resolves page e ≡ true → resolves q e ≡ true)
      → Unwired old ws
      → All (Resolved page) ws
      → All (Resolved q) ws
  ends q [] each u r = tt
  ends q (c ∷ ws) each u r =
      ((each c.from u.0.0 r.0.0, each c.to u.0.1 r.0.1), ends q ws each u.1 r.1)

  -- A block that no wire ends on may take an id that no element has.
  pub rename_block-IsValid :
      contains (element_ids page) id ≡ false
      → Unwired old page.connections
      → IsValid page
      → IsValid (rename_block old id page)
  unfolding rename_block
  rename_block-IsValid free unwired v = record {
    ids =
        rw
          (map-renamed (λ (b : BlockNode). b.id) (λ (b : BlockNode). record b { id = id }) old id
            page.blocks (λ b. refl))
          (Nodup-renamed_front old id (block_ids page) (constant_ids page) free v.ids);
    wires = ends (rename_block old id page) page.connections block_end unwired v.wires;
    driven = v.driven;
  }

  -- And so may a constant.
  pub patch_constant-IsValid :
      contains (element_ids page) id ≡ false
      → Unwired old page.connections
      → IsValid page
      → IsValid (patch_constant old (λ c. record c { id = id }) page)
  unfolding patch_constant
  patch_constant-IsValid free unwired v = record {
    ids =
        rw
          (map-renamed (λ (c : ConstantNode). c.id) (λ (c : ConstantNode). record c { id = id }) old
            id page.constants (λ c. refl))
          (Nodup-renamed_behind old id (block_ids page) (constant_ids page) free v.ids);
    wires =
        ends (patch_constant old (λ c. record c { id = id }) page) page.connections constant_end
          unwired v.wires;
    driven = v.driven;
  }
