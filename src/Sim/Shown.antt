-- ===== src/Sim/Shown.antt =====
-- Which pins show a value, and which are marked as forced (`pinValues`, `pinForced`).
use veristc.Prelude.{
  ℕ, String, ◌==◌, eq_iff, ◌≡◌, refl, sym, ◌∙◌, Option, none, some, or_try, is_some, List, [], ◌∷◌,
  Bool, true, false, ◌&&◌, inl, inr, lookup, insert, lookup-insert, In, any, ◌↔◌, if◌then◌else◌,
  Option-cases, arith, All, ◌≢◌, ◌++◌, or_else, get_elem?, ap, subst, Bool-cases, inr, eq_false,
}
use veristc.Chart.Pins.{pin_key}
use veristc.Sim.Types.{SymbolSeries, PinRow, PinRowKind, SimRun}
use veristc.Sim.Values.{
  Printing, pin_text, value_step, values_from, pin_values, pin_marked, forced_from, pin_forced,
  series,
}

abbrev pub row_key : PinRow → String
row_key pin = pin_key pin.element pin.port

module _ (symbols : List SymbolSeries) (page_id : String) (cycle : ℕ) where
  -- Does a row mark the pin of this key?
  abbrev pub marks : String → PinRow → Bool
  marks key pin = (pin.page == page_id && row_key pin == key) && pin_marked symbols cycle pin

  lookup-forced_from :
      (key : String) (pins : List PinRow) (table : List (String × Bool))
      → lookup key (forced_from symbols page_id cycle pins table)
        ≡ (if any (marks key) pins then some true else lookup key table)
  unfolding forced_from
  lookup-forced_from key [] table = refl
  lookup-forced_from key (pin ∷ pins) table = ground (
    arith,
    lookup-forced_from key pins table,
    lookup-forced_from key pins (insert (pin_key pin.element pin.port) true table),
    lookup-insert (pin_key pin.element pin.port) key true table,
  )

or_try-none : {A : Type 0} (o : Option A) → or_try o none ≡ o
or_try-none none = refl
or_try-none (some a) = refl

-- A description of the table that does not build one: of the rows for a pin of the page, the last
-- that has a text gives it.
module _ (printing : Printing) (symbols : List SymbolSeries) (page_id : String) (cycle : ℕ) where
  abbrev pub own_text : String → PinRow → Option String
  own_text key pin =
      if pin.page == page_id && row_key pin == key
      then pin_text printing symbols cycle pin
      else none

  abbrev pub last_text : String → List PinRow → Option String
  last_text key [] = none
  last_text key (pin ∷ pins) = or_try (last_text key pins) (own_text key pin)

  lookup-value_step :
      (key : String) (pin : PinRow) (table : List (String × String))
      → lookup key (value_step printing symbols page_id cycle pin table)
        ≡ or_try (own_text key pin) (lookup key table)
  lookup-value_step key pin table = elim (Option-cases (pin_text printing symbols cycle pin)) [
    | inl e ↦ ground arith
    | inr (shown, e) ↦ ground (arith, lookup-insert (row_key pin) key shown table)
  ]

  lookup-values_from :
      (key : String) (pins : List PinRow) (table : List (String × String))
      → lookup key (values_from printing symbols page_id cycle pins table)
        ≡ or_try (last_text key pins) (lookup key table)
  unfolding values_from
  lookup-values_from key [] table = refl
  lookup-values_from key (pin ∷ pins) table = ground (
    arith,
    lookup-values_from key pins (value_step printing symbols page_id cycle pin table),
    lookup-value_step key pin table,
  )

  last_text-In :
      (key shown : String) (pins : List PinRow)
      → last_text key pins ≡ some shown
      → (pin : PinRow) × In pin pins
        × (pin.page ≡ page_id)
        × (row_key pin ≡ key)
        × (pin_text printing symbols cycle pin ≡ some shown)
  last_text-In key shown [] h = absurd (cc h)
  last_text-In key shown (pin ∷ pins) h = elim (Option-cases (last_text key pins)) [
    | inl e ↦ (
      pin,
      inl refl,
      ground (arith, eq_iff pin.page page_id),
      ground (arith, eq_iff (row_key pin) key),
      ground arith,
    )
    | inr (v, e) ↦
        let (p, m, page, k, t) = last_text-In key shown pins (ground arith) in
        (p, inr m, page, k, t)
  ]

  pin_marked-pin_text :
      (pin : PinRow)
      → pin_marked symbols cycle pin ≡ true
      → is_some (pin_text printing symbols cycle pin) ≡ true
  unfolding pin_marked pin_text
  pin_marked-pin_text pin h = ground arith

  last_text_of_marks :
      (key : String) (pins : List PinRow)
      → any (marks symbols page_id cycle key) pins ≡ true
      → is_some (last_text key pins) ≡ true
  last_text_of_marks key [] h = absurd (cc h)
  last_text_of_marks key (pin ∷ pins) h =
      ground (arith, last_text_of_marks key pins, pin_marked-pin_text pin)

-- The table of a sheet, described without building it: a key reads as the last row of the pin table
-- that stands for it on this page and has a text to show.
pub lookup-pin_values :
    (printing : Printing) (run : SimRun) (pins : List PinRow) (symbols : List SymbolSeries)
    (page_id : String) (cycle : ℕ) (key : String)
    → run.pins ≡ some pins
    → run.symbols ≡ some symbols
    → lookup key (pin_values printing (some run) page_id cycle)
      ≡ last_text printing symbols page_id cycle key pins
unfolding pin_values
lookup-pin_values printing run pins symbols page_id cycle key hp hs =
    rw (hp, hs, pin_values)
      (lookup-values_from printing symbols page_id cycle key pins [] ∙ or_try-none _)

-- A pin shows nothing but the text of a row of the run's own pin table, for that page and that pin.
pub pin_values-In :
    (printing : Printing) (run : SimRun) (pins : List PinRow) (symbols : List SymbolSeries)
    (page_id : String) (cycle : ℕ) (key shown : String)
    → run.pins ≡ some pins
    → run.symbols ≡ some symbols
    → lookup key (pin_values printing (some run) page_id cycle) ≡ some shown
    → (pin : PinRow) × In pin pins
      × (pin.page ≡ page_id)
      × (row_key pin ≡ key)
      × (pin_text printing symbols cycle pin ≡ some shown)
pin_values-In printing run pins symbols page_id cycle key shown hp hs h =
    last_text-In printing symbols page_id cycle key shown pins
      (sym (lookup-pin_values printing run pins symbols page_id cycle key hp hs) ∙ h)

lookup-pin_forced :
    (run : SimRun) (pins : List PinRow) (symbols : List SymbolSeries) (page_id : String) (cycle : ℕ)
    (key : String)
    → run.pins ≡ some pins
    → run.symbols ≡ some symbols
    → lookup key (pin_forced (some run) page_id cycle)
      ≡ (if any (marks symbols page_id cycle key) pins then some true else none)
unfolding pin_forced
lookup-pin_forced run pins symbols page_id cycle key hp hs =
    rw (hp, hs, pin_forced) (lookup-forced_from symbols page_id cycle key pins [])

any-marks :
    (run : SimRun) (pins : List PinRow) (symbols : List SymbolSeries) (page_id : String) (cycle : ℕ)
    (key : String)
    → run.pins ≡ some pins
    → run.symbols ≡ some symbols
    → (lookup key (pin_forced (some run) page_id cycle) ≡ some true)
      ↔ (any (marks symbols page_id cycle key) pins ≡ true)
any-marks run pins symbols page_id cycle key hp hs =
    rw (lookup-pin_forced run pins symbols page_id cycle key hp hs) (λ h. ground arith, λ h. rw h)

-- The last of the symbols of a name.
abbrev pub IsLast : List SymbolSeries → String → SymbolSeries → Type 0
IsLast symbols name row =
    (pre : List SymbolSeries) × (post : List SymbolSeries) × (symbols ≡ pre ++ row ∷ post)
    × (row.name ≡ name)
    × All (λ (other : SymbolSeries). other.name ≢ name) post

-- A row names a symbol of the run whose frame of the cycle has it as forced.
abbrev pub SaysForced : List SymbolSeries → ℕ → PinRow → Type 0
SaysForced symbols cycle pin =
    (row : SymbolSeries) × (pin.kind ≡ PinRowKind.symbol)
    × IsLast symbols (or_else pin.symbol "") row
    × (get_elem? row.forced cycle ≡ some true)

series-none :
    (symbols : List SymbolSeries) (name : String)
    → series symbols name ≡ none
    → All (λ (other : SymbolSeries). other.name ≢ name) symbols
unfolding series
series-none [] name h = tt
series-none (row ∷ rows) name h = elim (Option-cases (series rows name)) [
  | inl later ↦ (λ e. ground (arith, (eq_iff row.name name).1 e), series-none rows name later)
  | inr (other, later) ↦ absurd (ground arith)
]

some_inj : {A : Type 0} {a b : A} → some a ≡ some b → a ≡ b
some_inj {a = a} h = ap (λ o. or_else o a) h

series-IsLast :
    (symbols : List SymbolSeries) (name : String) (row : SymbolSeries)
    → series symbols name ≡ some row
    → IsLast symbols name row
unfolding series
series-IsLast [] name row h = absurd (cc h)
series-IsLast (first ∷ rows) name row h = elim (Option-cases (series rows name)) [
  | inr (other, later) ↦
      let (pre, post, split, named, after) = series-IsLast rows name other later in
      let same : other ≡ row = some_inj (rw later at h) in
      subst (IsLast (first ∷ rows) name) same (first ∷ pre, post, ap (first ∷◌) split, named, after)
  | inl later ↦ elim (Bool-cases (first.name == name)) [
    | inl e ↦
        subst (IsLast (first ∷ rows) name) (some_inj (rw (later, e) at h))
          ([], rows, refl, (eq_iff first.name name).0 e, series-none rows name later)
    | inr e ↦ absurd (cc (rw (later, e) at h))
  ]
]

IsLast-series :
    (symbols : List SymbolSeries) (name : String) (row : SymbolSeries)
    → IsLast symbols name row
    → series symbols name ≡ some row
unfolding series
IsLast-series symbols name row (pre, post, split, named, after) = rw split (front pre)
  where
    behind :
        (post : List SymbolSeries)
        → All (λ (other : SymbolSeries). other.name ≢ name) post
        → series post name ≡ none
    behind [] h = refl
    behind (other ∷ post) h = rw (behind post h.1, eq_false other.name name h.0) refl

    front : (pre : List SymbolSeries) → series (pre ++ row ∷ post) name ≡ some row
    front [] = rw (behind post after, (eq_iff row.name name).1 named) refl
    front (first ∷ pre) = rw (front pre) refl

symbol_only :
    (kind : PinRowKind) (said : Bool)
    → (elim kind [ PinRowKind.symbol ↦ said | _ ↦ false ]) ≡ true
    → (kind ≡ PinRowKind.symbol) × (said ≡ true)
symbol_only PinRowKind.symbol said h = (refl, h)
symbol_only PinRowKind.constant said h = absurd (cc h)
symbol_only PinRowKind.unconnected said h = absurd (cc h)
symbol_only PinRowKind.unwatchable said h = absurd (cc h)

symbol_back :
    (kind : PinRowKind) (said : Bool)
    → kind ≡ PinRowKind.symbol
    → said ≡ true
    → (elim kind [ PinRowKind.symbol ↦ said | _ ↦ false ]) ≡ true
symbol_back kind said k h = rw k h

some-true : (o : Option Bool) → or_else o false ≡ true → o ≡ some true
some-true none h = absurd (cc h)
some-true (some b) h = ap some h

pin_marked_iff :
    (symbols : List SymbolSeries) (cycle : ℕ) (pin : PinRow)
    → (pin_marked symbols cycle pin ≡ true) ↔ SaysForced symbols cycle pin
unfolding pin_marked
pin_marked_iff symbols cycle pin = (
  λ h.
      let (is_symbol, said) = symbol_only pin.kind _ h in
      elim (Option-cases (series symbols (or_else pin.symbol ""))) [
        | inl missing ↦ absurd (cc (rw missing at said))
        | inr (row, found) ↦ (
          row,
          is_symbol,
          series-IsLast symbols (or_else pin.symbol "") row found,
          some-true (get_elem? row.forced cycle) (rw found at said),
        )
      ],
  λ (row, is_symbol, last, said).
      symbol_back pin.kind _ is_symbol
        (rw (IsLast-series symbols (or_else pin.symbol "") row last, said) refl),
)

any_iff :
    (p : PinRow → Bool) (pins : List PinRow)
    → (any p pins ≡ true) ↔ ((pin : PinRow) × In pin pins × (p pin ≡ true))
any_iff p [] = (λ h. absurd (cc h), λ (pin, m, h). absurd m)
any_iff p (x ∷ xs) = (
  λ h. elim (Bool-cases (p x)) [
    | inl e ↦ (x, inl refl, e)
    | inr e ↦ let (pin, m, q) = (any_iff p xs).0 (ground arith) in (pin, inr m, q)
  ],
  λ (pin, m, h). elim m [
    | inl e ↦ rw (← e, h) refl
    | inr n ↦ ground (arith, (any_iff p xs).1 (pin, n, h))
  ],
)

-- A pin is marked as forced exactly if some row of the run's pin table stands for it on this page and
-- names a symbol of the run whose frame of the cycle has it as forced; of several symbols of one name,
-- the last one is asked.
pub pin_forced_iff :
    (run : SimRun) (pins : List PinRow) (symbols : List SymbolSeries) (page_id : String) (cycle : ℕ)
    (key : String)
    → run.pins ≡ some pins
    → run.symbols ≡ some symbols
    → (lookup key (pin_forced (some run) page_id cycle) ≡ some true) ↔ (
        (pin : PinRow) × In pin pins
        × (pin.page ≡ page_id)
        × (row_key pin ≡ key)
        × SaysForced symbols cycle pin)
pin_forced_iff run pins symbols page_id cycle key hp hs =
    let marked = any-marks run pins symbols page_id cycle key hp hs in
    let row_of = any_iff (marks symbols page_id cycle key) pins in
    (
      λ h.
          let (pin, m, q) = row_of.0 (marked.0 h) in
          (
            pin,
            m,
            ground (arith, eq_iff pin.page page_id),
            ground (arith, eq_iff (row_key pin) key),
            (pin_marked_iff symbols cycle pin).0 (ground arith),
          ),
      λ (pin, m, page, k, said). marked.1 (
          row_of.1 (
            pin,
            m,
            ground (
              arith,
              eq_iff pin.page page_id,
              eq_iff (row_key pin) key,
              (pin_marked_iff symbols cycle pin).1 said,
            ),
          )),
    )

-- A pin that is marked as forced shows a value.
pub pin_forced-shown :
    (printing : Printing) (run : SimRun) (pins : List PinRow) (symbols : List SymbolSeries)
    (page_id : String) (cycle : ℕ) (key : String)
    → run.pins ≡ some pins
    → run.symbols ≡ some symbols
    → lookup key (pin_forced (some run) page_id cycle) ≡ some true
    → is_some (lookup key (pin_values printing (some run) page_id cycle)) ≡ true
pin_forced-shown printing run pins symbols page_id cycle key hp hs h =
    rw (lookup-pin_values printing run pins symbols page_id cycle key hp hs) (
      last_text_of_marks printing symbols page_id cycle key pins
        ((any-marks run pins symbols page_id cycle key hp hs).0 h))
