-- ===== src/Editor/Offers.antt =====
-- What the palette offers (pages/GraphEditorPage.tsx).
use veristc.Prelude.{
  ◌≡◌, refl, ◌⊎◌, inl, inr, String, Bool, false, Bool-cases, some, List, [], ◌∷◌, map, filter,
  contains, All,
}
use veristc.Chart.Types.{Scope}
use veristc.Editor.Reports.{CrossPageRow}
use veristc.Editor.Palette.{
  ExternalVarRow, SystemVarRow, PaletteAction, PaletteRow, PaletteGroup, PagePort, CrossVar,
  on_sheet, pins_for, has_scope, add_crossing, add_own, read, write, insert_row, sort, point_row,
  is_point, points, crossing_row, local_row, system_row, groups,
}

-- A row that can be dropped as a port offers a name that no port of the sheet has, and its seed carries
-- that name.
pub record IsOffer (sheet : List String) (row : PaletteRow) : Type 0 where
  pub fresh : (row.actions ≡ []) ⊎ (contains sheet row.name ≡ false)
  pub named : row.seed.name ≡ some row.name

pins_for-fresh :
    (sheet : List String) (name : String) (actions : List PaletteAction)
    → (pins_for sheet name actions ≡ []) ⊎ (contains sheet name ≡ false)
pins_for-fresh sheet name actions = elim (Bool-cases (contains sheet name)) [
  | inl e ↦ inl (rw e refl)
  | inr e ↦ inr e
]

All-map :
    {A : Type 0} (P : PaletteRow → Type 0) (f : A → PaletteRow) (xs : List A)
    → ((x : A) → P (f x))
    → All P (map f xs)
All-map P f [] h = tt
All-map P f (x ∷ xs) h = (h x, All-map P f xs h)

module _ (t : String → String) (before : String → String → Bool) where
  insert_row-All :
      (P : PaletteRow → Type 0) (r : PaletteRow) (rows : List PaletteRow)
      → P r
      → All P rows
      → All P (insert_row t before r rows)
  insert_row-All P r [] h k = (h, tt)
  insert_row-All P r (s ∷ rows) h k = elim (Bool-cases (before s.name r.name)) [
    | inl e ↦ rw e (k.0, insert_row-All P r rows h k.1)
    | inr e ↦ rw e (h, k)
  ]

  sort-All :
      (P : PaletteRow → Type 0) (rows : List PaletteRow) → All P rows → All P (sort t before rows)
  sort-All P [] k = tt
  sort-All P (r ∷ rows) k = insert_row-All P r (sort t before rows) k.0 (sort-All P rows k.1)

  points-All :
      (station : String) (sheet : List String) (direction : String) (action : PaletteAction)
      (external : List ExternalVarRow)
      → All (IsOffer sheet) (points t before station sheet direction action external)
  points-All station sheet direction action external =
      All-map (IsOffer sheet) (point_row t before station sheet action)
        (filter (is_point t before direction) external)
        (λ row. record { fresh = pins_for-fresh sheet row.name (action ∷ []); named = refl })

  -- No row of the palette offers to declare a name again: a row with pins to drop has a name that no
  -- port of the sheet has, and what it drops carries that name.
  pub groups-IsOffer :
      (station : String) (external : List ExternalVarRow) (cross_page : List CrossPageRow)
      (system_vars : List SystemVarRow) (own : List PagePort)
      → All
          (λ (g : PaletteGroup). All (IsOffer (on_sheet own)) g.rows)
          (groups t before station external cross_page system_vars own)
  unfolding groups
  groups-IsOffer station external cross_page system_vars own =
      let sheet : List String = on_sheet own in
      (
        points-All station sheet "input" (read t before) external,
        (
          points-All station sheet "output" (write t before) external,
          (
            sort-All (IsOffer sheet) _ (
                All-map (IsOffer sheet) (λ (e : String × CrossVar). crossing_row t before sheet e.1)
                  (add_own own (add_crossing cross_page []))
                  (λ e. record {
                    fresh = pins_for-fresh sheet e.1.name (read t before ∷ write t before ∷ []);
                    named = refl;
                  })),
            (
              sort-All (IsOffer sheet) _ (
                  All-map (IsOffer sheet) (local_row t before)
                    (filter (λ (p : PagePort). has_scope Scope.local p.port.scope) own)
                    (λ p. record { fresh = inl refl; named = refl })),
              (
                All-map (IsOffer sheet) (system_row t before sheet) system_vars (λ row. record {
                  fresh = pins_for-fresh sheet row.name (read t before ∷ []);
                  named = refl;
                }),
                tt,
              ),
            ),
          ),
        ),
      )
