-- ===== src/Station/Coverage.antt =====
-- What the board shows (components/device/PointBoard.tsx), and what the page derives from its rows
-- (pages/DevicePage.tsx).
use veristc.Prelude.{
  suc, ◌≡◌, refl, sym, ap, ◌<◌, ◌≤◌, ◌⊎◌, inl, inr, arith, not, Bool-cases, or_else, List, [], ◌∷◌,
  ◌++◌, ◌∙◌, append_assoc, map, contains, contains_iff, In, In-append_left, In-append_right,
  filter-In, All, All-mono, String, subst, leb,
}
use veristc.Station.Types.{ModuleView, ExternalVarRow, BindingPayload}
use veristc.Station.Board.{
  Lane, ByName, sort_modules, point_names, lane_of, order, values, orphans, orphan_cell,
  orphan_lane, lanes,
}
use veristc.Station.Points.{
  max_last, suggested_first_channel, Field, put_field, put_fields, payload_for,
}

order-append : (xs ys : List Lane) → order (xs ++ ys) ≡ order xs ++ order ys
unfolding order
order-append [] ys = refl
order-append (x ∷ xs) ys =
    ap (point_names x.cells ++◌) (order-append xs ys)
    ∙ sym (append_assoc (point_names x.cells) (order xs) (order ys))

orphan_names :
    (row : ExternalVarRow) (rows : List ExternalVarRow)
    → In row rows
    → In row.name (point_names (map orphan_cell rows))
orphan_names row [] m = absurd m
orphan_names row (r ∷ rows) (inl e) = inl (ap (λ (x : ExternalVarRow). x.name) e)
orphan_names row (r ∷ rows) (inr m) = inr (orphan_names row rows m)

orphan_lane-shows :
    (t : String → String) (row : ExternalVarRow) (rows : List ExternalVarRow)
    → In row rows
    → In row.name (order (orphan_lane t rows))
unfolding orphan_lane order
orphan_lane-shows t row [] m = absurd m
orphan_lane-shows t row (r ∷ rows) m =
    In-append_left row.name (point_names (map orphan_cell (r ∷ rows))) []
      (orphan_names row (r ∷ rows) m)

-- Every point that the page passes to the board is on a card, and so can be selected: of a module's
-- channel, or in the lane of the points without one.
pub lanes-shows :
    (t : String → String) (modules : List ModuleView) (by_name : ByName) (row : ExternalVarRow)
    → In row (values by_name)
    → In row.name (order (lanes t modules by_name))
unfolding lanes orphans
lanes-shows t modules by_name row m =
    let built : List Lane = map (lane_of by_name) (sort_modules modules) in
    subst (In row.name) (sym (order-append built (orphan_lane t (orphans by_name built))))
      (elim (Bool-cases (contains (order built) row.name)) [
        | inl e ↦
            In-append_left row.name (order built) (order (orphan_lane t (orphans by_name built)))
              ((contains_iff (order built) row.name).0 e)
        | inr e ↦
            In-append_right row.name (order built) (order (orphan_lane t (orphans by_name built))) (
              orphan_lane-shows t row (orphans by_name built) (
                filter-In (λ (r : ExternalVarRow). not (contains (order built) r.name)) row
                  (values by_name) m (ap not e)))
      ])

max_last-bound : (ms : List ModuleView) → All (λ (m : ModuleView). m.last_channel ≤ max_last ms) ms
max_last-bound [] = tt
max_last-bound (m ∷ ms) = (
  ground arith,
  All-mono (λ (n : ModuleView) (h : n.last_channel ≤ max_last ms). ground arith) ms
      (max_last-bound ms),
)

max_last-at :
    (m : ModuleView) (ms : List ModuleView)
    → (n : ModuleView) × In n (m ∷ ms) × (max_last (m ∷ ms) ≡ n.last_channel)
max_last-at m [] = (m, inl refl, ground arith)
max_last-at m (k ∷ ms) = elim (Bool-cases (leb m.last_channel (max_last (k ∷ ms)))) [
  | inl e ↦ let (n, i, q) = max_last-at k ms in (n, inr i, rw e q)
  | inr e ↦ (m, inl refl, rw e refl)
]

-- The first channel that is suggested for a new module lies behind the last channel of each module,
-- and directly behind one of them unless there are none.
pub suggested_first_channel-IsFree :
    (modules : List ModuleView)
    → All (λ (m : ModuleView). m.last_channel < suggested_first_channel modules) modules
      × ((modules ≡ [])
          ⊎ ((m : ModuleView) × In m modules
              × (suggested_first_channel modules ≡ suc m.last_channel)))
unfolding suggested_first_channel
suggested_first_channel-IsFree [] = (tt, inl refl)
suggested_first_channel-IsFree (m ∷ ms) = (
  All-mono (λ (n : ModuleView) (h : n.last_channel ≤ max_last (m ∷ ms)). omega arith) (m ∷ ms)
      (max_last-bound (m ∷ ms)),
  inr (let (n, i, q) = max_last-at m ms in (n, i, ap suc q)),
)

-- A patch with a channel in it.
abbrev pub SetsChannel : Field → Type 0
SetsChannel (Field.channel v) = Unit
SetsChannel f = ⊥

put_field-keeps :
    (f : Field) (p : BindingPayload)
    → ¬ SetsChannel f
    → ((put_field f p).var_name ≡ p.var_name) × ((put_field f p).channel ≡ p.channel)
put_field-keeps (Field.point_name v) p h = (refl, refl)
put_field-keeps (Field.unit v) p h = (refl, refl)
put_field-keeps (Field.signal_type v) p h = (refl, refl)
put_field-keeps (Field.fault_hold v) p h = (refl, refl)
put_field-keeps (Field.channel v) p h = absurd (h tt)
put_field-keeps (Field.scale v) p h = (refl, refl)
put_field-keeps (Field.bias v) p h = (refl, refl)
put_field-keeps (Field.safety_min v) p h = (refl, refl)
put_field-keeps (Field.safety_max v) p h = (refl, refl)
put_field-keeps (Field.preset_value v) p h = (refl, refl)
put_field-keeps (Field.has_quality v) p h = (refl, refl)

put_fields-keeps :
    (patch : List Field) (p : BindingPayload)
    → All (λ f. ¬ SetsChannel f) patch
    → ((put_fields patch p).var_name ≡ p.var_name) × ((put_fields patch p).channel ≡ p.channel)
put_fields-keeps [] p h = (refl, refl)
put_fields-keeps (f ∷ fs) p h =
    let (name, channel) = put_field-keeps f p h.0 in
    let (names, channels) = put_fields-keeps fs (put_field f p) h.1 in
    (names ∙ name, channels ∙ channel)

-- An edit of any other fields sends the point's own name and channel, and channel 0 for a point that
-- has none: the edit of its unit, say, binds it to channel 0.
pub payload_for-channel :
    (row : ExternalVarRow) (patch : List Field)
    → All (λ f. ¬ SetsChannel f) patch
    → ((payload_for row patch).var_name ≡ row.name)
      × ((payload_for row patch).channel ≡ or_else row.channel 0)
unfolding payload_for
payload_for-channel row patch h = put_fields-keeps patch (payload_for row []) h
