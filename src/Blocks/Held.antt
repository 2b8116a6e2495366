-- ===== src/Blocks/Held.antt =====
-- What the runner makes of a stimulus: a force holds its symbol in every
-- cycle, and a record holds until the next one for that symbol.
use veristc.Prelude.{
  ℕ, zero, suc, ◌+◌, ◌≤◌, ◌<◌, ◌≡◌, refl, ap, ◌∙◌, String, ◌==◌, eq_iff, eq_refl, if◌then◌else◌,
  Option, none, some, List, [], ◌∷◌, ◌++◌, true, false, ◌&&◌, leb, All, All-mono, Bool-cases, inl,
  inr, arith,
}
use veristc.Sim.Stimulus.{ForceEntry, ScriptEntry, Payload}
use veristc.Blocks.Grid.{is_constant, changes}

abbrev pub forced_value : List ForceEntry → String → Option String
forced_value [] symbol = none
forced_value (f ∷ fs) symbol = if f.name == symbol then some f.value else forced_value fs symbol

-- The value that records leave in a symbol at a cycle, from the one that it had.
abbrev pub held : List ScriptEntry → String → ℕ → Option String → Option String
held [] symbol cycle before = before
held (r ∷ rs) symbol cycle before =
    held rs symbol cycle (if r.name == symbol && leb r.cycle cycle then some r.value else before)

abbrev pub or_held : Option String → List ScriptEntry → String → ℕ → Option String
or_held (some value) script symbol cycle = some value
or_held none script symbol cycle = held script symbol cycle none

pub or_held_cong :
    (value : Option String) (xs ys : List ScriptEntry) (symbol : String) (cycle : ℕ)
    → held xs symbol cycle none ≡ held ys symbol cycle none
    → or_held value xs symbol cycle ≡ or_held value ys symbol cycle
or_held_cong none xs ys symbol cycle e = e
or_held_cong (some value) xs ys symbol cycle e = refl

-- What a run with this stimulus holds a symbol at in a cycle.
abbrev pub value_at : Payload → String → ℕ → Option String
value_at sent symbol cycle = or_held (forced_value sent.forces symbol) sent.script symbol cycle

pub held-append :
    (xs ys : List ScriptEntry) (symbol : String) (cycle : ℕ) (before : Option String)
    → held (xs ++ ys) symbol cycle before ≡ held ys symbol cycle (held xs symbol cycle before)
held-append [] ys symbol cycle before = refl
held-append (r ∷ xs) ys symbol cycle before = held-append xs ys symbol cycle _

-- Records of other symbols, or of later cycles, leave a symbol alone.
pub held_others :
    (rs : List ScriptEntry) (symbol : String) (cycle : ℕ) (before : Option String)
    → All (λ (r : ScriptEntry). (r.name == symbol && leb r.cycle cycle) ≡ false) rs
    → held rs symbol cycle before ≡ before
held_others [] symbol cycle before h = refl
held_others (r ∷ rs) symbol cycle before h = rw (h.0) (held_others rs symbol cycle before h.1)

-- A record of the symbol that is due takes over.
pub held_due :
    (at : ℕ) (symbol value : String) (rs : List ScriptEntry) (cycle : ℕ) (before : Option String)
    → at ≤ cycle
    → held (record { cycle = at; name = symbol; value = value } ∷ rs) symbol cycle before
      ≡ held rs symbol cycle (some value)
held_due at symbol value rs cycle before h =
    ap (held rs symbol cycle) (ground (arith, eq_refl symbol))

-- The records of an input carry its symbol, and cycles from the one on at which they start.
pub changes-Start :
    (token : ℕ → String) (symbol prev : String) (n start : ℕ)
    → All
        (λ (r : ScriptEntry). (r.name ≡ symbol) × (start ≤ r.cycle))
        (changes token symbol prev n start)
unfolding changes
changes-Start token symbol prev zero start = tt
changes-Start token symbol prev (suc n) start =
    let after : List ScriptEntry = changes token symbol (token start) n (suc start) in
    let later : All (λ (r : ScriptEntry). (r.name ≡ symbol) × (start ≤ r.cycle)) after =
      All-mono (λ (r : ScriptEntry) h. (h.0, omega (arith, h.1))) after
        (changes-Start token symbol (token start) n (suc start)) in
    elim (Bool-cases (token start == prev)) [
      | inl same ↦ rw same later
      | inr other ↦ rw other ((refl, omega arith), later)
    ]

held-changes_before :
    (token : ℕ → String) (symbol prev : String) (n start cycle : ℕ) (before : Option String)
    → cycle < start
    → held (changes token symbol prev n start) symbol cycle before ≡ before
held-changes_before token symbol prev n start cycle before h =
    held_others (changes token symbol prev n start) symbol cycle before (
      All-mono (λ r k. ground (arith, k.1)) (changes token symbol prev n start)
        (changes-Start token symbol prev n start))

-- The records of an input leave in each cycle the value that the grid presets.
pub held-changes :
    (token : ℕ → String) (symbol : String) (n start cycle : ℕ)
    → start ≤ cycle
    → cycle ≤ start + n
    → held (changes token symbol (token start) n (suc start)) symbol cycle (some (token start))
      ≡ some (token cycle)
unfolding changes
held-changes token symbol zero start cycle h k = ap (λ c. some (token c)) (omega arith)
held-changes token symbol (suc n) start cycle h k = elim (Bool-cases (leb (suc start) cycle)) [
  | inr now ↦
      held-changes_before token symbol (token start) (suc n) (suc start) cycle (some (token start))
        (ground arith)
      ∙ ap (λ c. some (token c)) (ground arith)
  | inl later ↦ elim (Bool-cases (token (suc start) == token start)) [
    | inl same ↦
        rw (same, ← (eq_iff (token (suc start)) (token start)).0 same)
          (held-changes token symbol n (suc start) cycle (ground arith) (omega arith))
    | inr other ↦ rw other (
        held_due (suc start) symbol (token (suc start))
          (changes token symbol (token (suc start)) n (suc (suc start))) cycle (some (token start))
          (ground arith)
        ∙ held-changes token symbol n (suc start) cycle (ground arith) (omega arith))
  ]
]

-- An input that is found constant has its first value in every cycle.
pub is_constant-held :
    (token : ℕ → String) (first : String) (n start cycle : ℕ)
    → is_constant token first n start ≡ true
    → start ≤ cycle
    → cycle < start + n
    → token cycle ≡ first
unfolding is_constant
is_constant-held token first zero start cycle c h k = absurd (omega arith)
is_constant-held token first (suc n) start cycle c h k = elim (Bool-cases (leb (suc start) cycle)) [
  | inl later ↦
      is_constant-held token first n (suc start) cycle (ground arith) (ground arith) (omega arith)
  | inr now ↦ ground (arith, eq_iff (token start) first)
]
