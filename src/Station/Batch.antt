-- ===== src/Station/Batch.antt =====
-- Edits of several points at once, and the points that are picked for them
-- (components/device/PointBoard.tsx). The language's reading and printing of numbers are arguments:
-- `number_of` is `Number(text)` where that is finite, and `number_at` answers a text and an index with
-- `String((Number(text) || 1) + index)`.
use Prim.Native.Nat.{max}
use Prim.Native.String
use veristc.Prelude.{
  ℕ, suc, ◌-◌, leb, String, ◌==◌, if◌then◌else◌, Option, none, some, or_else, List, [], ◌∷◌, ◌++◌,
  filter, length, take, drop, contains, Bool, true, false, not,
}
use veristc.Chart.Types.{Number}
use veristc.Lang.Decimal.{text_length, pad_start}
use veristc.Lang.Trim.{trim, is_empty}
use veristc.Station.Points.{Field}

-- A blank field means no limit.
unfoldable pub number_or_null : (String → Option Number) → Option String → Option Number
unfolding trim
number_or_null number_of value =
    let text : String = trim (or_else value "") in if is_empty text then none else number_of text

-- The name of the point at a place of the batch.
unfoldable pub batch_name : (String → ℕ → String) → String → ℕ → String → ℕ → String
unfolding pad_start
batch_name number_at prefix width start index =
    String.◌++◌ prefix (pad_start width (number_at start index))

-- The width that the last number of the batch needs; where the batch is empty, nothing reads it.
unfoldable pub batch_width : (String → ℕ → String) → String → ℕ → ℕ
batch_width number_at start count = max 2 (text_length (number_at start (count - 1)))

pub record BatchEdit : Type 0 where
  pub name : String
  pub patch : List Field

-- `targets.map((name, index) => ({ name, patch: build(name, index) }))`
abbrev pub edits_from : (ℕ → List Field) → ℕ → List String → List BatchEdit
edits_from build index [] = []
edits_from build index (name ∷ names) =
    record { name = name; patch = build index } ∷ edits_from build (suc index) names

-- The command that renames the batch, for its two fields; a blank prefix does nothing.
unfoldable pub batch_rename :
    (String → ℕ → String) → String → String → List String → Option (List BatchEdit)
unfolding trim batch_name batch_width
batch_rename number_at prefix start targets =
    let clean : String = trim prefix in
    let width : ℕ = batch_width number_at start (length targets) in
    if is_empty clean
    then none
    else some (
        edits_from (λ index. Field.point_name (batch_name number_at clean width start index) ∷ []) 0
          targets)

unfoldable pub batch_unit : String → List String → List BatchEdit
unfolding trim
batch_unit unit targets = edits_from (λ index. Field.unit (trim unit) ∷ []) 0 targets

unfoldable pub batch_range :
    (String → Option Number) → Option String → Option String → List String → List BatchEdit
unfolding number_or_null
batch_range number_of low high targets =
    edits_from
      (λ index.
        Field.safety_min (number_or_null number_of low)
        ∷ Field.safety_max (number_or_null number_of high)
        ∷ [])
      0 targets

unfoldable pub batch_signal_type : String → List String → List BatchEdit
batch_signal_type signal_type targets =
    edits_from (λ index. Field.signal_type signal_type ∷ []) 0 targets

unfoldable pub batch_fault_hold :
    (String → Option Number) → String → Option String → List String → List BatchEdit
unfolding number_or_null
batch_fault_hold number_of fault_hold preset targets =
    edits_from
      (λ index.
        Field.fault_hold fault_hold
        ∷ Field.preset_value
            (if fault_hold == "preset" then number_or_null number_of preset else none)
        ∷ [])
      0 targets

-- The targets of the menu: the picked points in the order of the board.
unfoldable pub batch_targets : List String → List String → List String
batch_targets order selected = filter (contains selected) order

pub record Picking : Type 0 where
  pub selected : List String
  pub mode : Bool
  pub fired : Bool

abbrev pub select : String → List String → List String
select name xs = if contains xs name then xs else xs ++ name ∷ []

abbrev pub select_all : List String → List String → List String
select_all [] xs = xs
select_all (name ∷ names) xs = select_all names (select name xs)

-- The timer of a long press runs out.
unfoldable pub press_fires : String → Picking → Picking
press_fires name p = record p { selected = select name p.selected; mode = true; fired = true }

-- `order.indexOf(name)`, where it is there.
abbrev pub index_of : String → List String → Option ℕ
index_of name [] = none
index_of name (x ∷ xs) =
    let rest = index_of name xs in
    if x == name then some 0 else elim rest [ none ↦ none | some i ↦ some (suc i) ]

abbrev pub last_of : List String → Option String
last_of [] = none
last_of (x ∷ []) = some x
last_of (x ∷ y ∷ xs) = last_of (y ∷ xs)

-- `order.slice(start, end + 1)` between two places in any order.
abbrev pub between : ℕ → ℕ → List String → List String
between a b order =
    if leb a b then take (suc b - a) (drop a order) else take (suc a - b) (drop b order)

-- The same where a place may be missing: `indexOf` answers -1 then, which `slice` counts from the end.
abbrev pub slice_between : Option ℕ → Option ℕ → List String → List String
slice_between (some a) (some b) order = between a b order
slice_between (some a) none order = drop (length order - 1) (take (suc a) order)
slice_between none (some b) order = drop (length order - 1) (take (suc b) order)
slice_between none none order = []

-- The place of the point that was picked last, or that of the card where no point was.
abbrev pub place_of_last : Option String → Option ℕ → List String → Option ℕ
place_of_last none to order = to
place_of_last (some last) to order = if is_empty last then to else index_of last order

-- The points that a click with the shift key adds.
abbrev pub range_to : Option String → String → List String → List String
range_to last name order =
    let to = index_of name order in slice_between (place_of_last last to order) to order

-- `pickCard`: the state after it, and its answer, if it has one.
unfoldable pub pick_card : List String → String → Bool → Picking → Picking × Option Bool
pick_card order name shift p =
    if p.fired
    then (record p { fired = false }, none)
    else if not p.mode
    then (p, some false)
    else if shift
    then (
      record p { selected = select_all (range_to (last_of p.selected) name order) p.selected },
      some true,
    )
    else (
      record p {
        selected =
            if contains p.selected name
            then filter (λ x. not (x == name)) p.selected
            else select name p.selected;
      },
      some true,
    )

-- The keys Escape and Ctrl+A.
unfoldable pub leave_selection : Picking → Picking
leave_selection p = record p { mode = false; selected = [] }

unfoldable pub select_order : List String → Picking → Picking
select_order order p = if p.mode then record p { selected = order } else p
