-- ===== src/Sim/Values.antt =====
-- What the pins of a sheet show at one cycle of a run (components/graph/types.ts). How the language
-- prints a number, plainly and to six digits, is a parameter.
use Prim.Native.Char.{Char, code}
use text.Mathlib.Text.{find?}
use veristc.Prelude.{
  ℕ, pos, negsuc, String, ◌==◌, if◌then◌else◌, nat_beq, leb, Option, none, some, or_else, or_try,
  is_some, List, [], ◌∷◌, Bool, true, false, not, ◌&&◌, get_elem?, insert,
}
use veristc.Chart.Types.{Number}
use veristc.Chart.Pins.{pin_key}
use veristc.Lang.Trim.{drop_end, is_empty}
use veristc.Sim.Types.{SymbolSeries, PinRow, PinRowKind, SimRun}

-- `Number.prototype.toPrecision(6)` and `String(value)`.
pub record Printing : Type 0 where
  pub precision6 : Number → String
  pub plain : Number → String

-- `text.includes(part)`
abbrev pub includes : String → String → Bool
includes text part = is_some (find? text part)

abbrev pub is_zero : Char → Bool
is_zero c = nat_beq (code c) b'0'

abbrev pub is_dot : Char → Bool
is_dot c = nat_beq (code c) b'.'

abbrev pub is_digit : Char → Bool
is_digit c = leb b'0' (code c) && leb (code c) b'9'

abbrev pub all_digits : String → Bool
all_digits String.[] = true
all_digits (String.◌∷◌ c s) = is_digit c && all_digits s

-- `.replace(/(\.\d*?)0+$/, "$1")`: the zeros that end a text go, if digits alone stand between them and
-- a dot.
unfoldable pub strip_zeros : String → String
unfolding drop_end
strip_zeros String.[] = ""
strip_zeros (String.◌∷◌ c s) =
    String.◌∷◌ c (if is_dot c && all_digits s then drop_end is_zero s else strip_zeros s)

-- `.replace(/\.$/, "")`
unfoldable pub strip_dot : String → String
strip_dot String.[] = ""
strip_dot (String.◌∷◌ c s) = if is_dot c && is_empty s then "" else String.◌∷◌ c (strip_dot s)

abbrev pub nonzero : Number → Bool
nonzero n = elim n.mantissa [ pos m ↦ not (nat_beq m 0) | negsuc m ↦ true ]

-- The readings of a frame are numbers or `null`; `formatValue` takes texts too.
pub data Reading : Type 0 where
  null : Reading
  str : String → Reading
  num : Number → Reading

abbrev pub reading_of : Option (Option Number) → Reading
reading_of none = null
reading_of (some none) = null
reading_of (some (some n)) = num n

-- `series.get(name)`: of the symbols of one name, the last one listed.
unfoldable pub series : List SymbolSeries → String → Option SymbolSeries
series [] name = none
series (row ∷ rows) name = or_try (series rows name) (if row.name == name then some row else none)

module _ (printing : Printing) where
  open printing use {precision6, plain}

  unfoldable pub format_value : String → Reading → String
  unfolding strip_zeros strip_dot
  format_value st_type null = "—"
  format_value st_type (str s) = s
  format_value st_type (num n) =
      if includes st_type "BOOL"
      then if nonzero n then "TRUE" else "FALSE"
      else if includes st_type "REAL"
      then strip_dot (strip_zeros (precision6 n))
      else plain n

  -- The text that one row of the pin table puts on its pin, if it puts any: the literal of a
  -- constant, else what the frame of the cycle answered for the symbol that the row names.
  unfoldable pub pin_text : List SymbolSeries → ℕ → PinRow → Option String
  unfolding format_value series
  pin_text symbols cycle pin = elim pin.kind [
    | PinRowKind.constant ↦ pin.literal
    | PinRowKind.symbol ↦ elim (series symbols (or_else pin.symbol "")) [
      | none ↦ none
      | some row ↦ some (format_value row.type (reading_of (get_elem? row.values cycle)))
    ]
    | _ ↦ none
  ]

  -- One round of the loop of `pinValues`.
  abbrev pub value_step :
      List SymbolSeries → String → ℕ → PinRow → List (String × String) → List (String × String)
  value_step symbols page_id cycle pin table =
      if pin.page == page_id
      then elim (pin_text symbols cycle pin) [
        | none ↦ table
        | some shown ↦ insert (pin_key pin.element pin.port) shown table
      ]
      else table

  unfoldable pub values_from :
      List SymbolSeries → String → ℕ → List PinRow → List (String × String) → List (String × String)
  unfolding pin_text
  values_from symbols page_id cycle [] table = table
  values_from symbols page_id cycle (pin ∷ pins) table =
      values_from symbols page_id cycle pins (value_step symbols page_id cycle pin table)

  unfoldable pub pin_values : Option SimRun → String → ℕ → List (String × String)
  unfolding values_from
  pin_values none page_id cycle = []
  pin_values (some run) page_id cycle = elim run.pins [
    | none ↦ []
    | some pins ↦ elim run.symbols [
      | none ↦ []
      | some symbols ↦ values_from symbols page_id cycle pins []
    ]
  ]

-- Whether a row of the pin table marks its pin as forced: its symbol's frame said so.
unfoldable pub pin_marked : List SymbolSeries → ℕ → PinRow → Bool
unfolding series
pin_marked symbols cycle pin = elim pin.kind [
  | PinRowKind.symbol ↦ elim (series symbols (or_else pin.symbol "")) [
    | none ↦ false
    | some row ↦ or_else (get_elem? row.forced cycle) false
  ]
  | _ ↦ false
]

unfoldable pub forced_from :
    List SymbolSeries → String → ℕ → List PinRow → List (String × Bool) → List (String × Bool)
unfolding pin_marked
forced_from symbols page_id cycle [] table = table
forced_from symbols page_id cycle (pin ∷ pins) table = forced_from symbols page_id cycle pins (
    if pin.page == page_id && pin_marked symbols cycle pin
    then insert (pin_key pin.element pin.port) true table
    else table)

unfoldable pub pin_forced : Option SimRun → String → ℕ → List (String × Bool)
unfolding forced_from
pin_forced none page_id cycle = []
pin_forced (some run) page_id cycle = elim run.pins [
  | none ↦ []
  | some pins ↦ elim run.symbols [
    | none ↦ []
    | some symbols ↦ forced_from symbols page_id cycle pins []
  ]
]
