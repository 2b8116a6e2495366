-- ===== src/Sim/Requests.antt =====
-- What a run request carries (`stimulusPayload`), and the ids of stimulus rows.
use Prim.Native.Char.{Char, code}
use Prim.Native.String
use text.Mathlib.TextLemmas.{append_cancel_left, cons-append, head-eq_of_cons-eq}
use veristc.Prelude.{
  ℕ, suc, String, eq_iff, ◌≡◌, ◌≢◌, refl, sym, ap, ◌∙◌, List, [], ◌∷◌, map, filter, Bool, true, All,
  Bool-cases, inl, inr, arith, In, In-map, filter-In, subst, ◌↔◌,
}
use veristc.Lang.Decimal.{decimal, decimal_inj}
use veristc.Lang.Trim.{trim, trim_idempotent}
use veristc.Sim.Types.{ForceRow, ScriptRow}
use veristc.Sim.Stimulus.{
  usable, ForceEntry, ScriptEntry, force_entry, script_entry, stimulus_payload, Prefix,
  new_stimulus_id,
}

-- A text that a request may carry: not blank, and with no blanks around it.
abbrev pub IsClean : String → Type 0
IsClean s = (s ≢ "") × (trim s ≡ s)

usable-IsClean :
    (on : Bool) (name value : String)
    → usable on name value ≡ true
    → IsClean (trim name) × IsClean (trim value) × (on ≡ true)
unfolding usable
usable-IsClean on name value h = (
  (ground (arith, eq_iff (trim name) ""), trim_idempotent name),
  (ground (arith, eq_iff (trim value) ""), trim_idempotent value),
  ground arith,
)

forces-IsClean :
    (rows : List ForceRow)
    → All
        (λ (e : ForceEntry). IsClean e.name × IsClean e.value)
        (map force_entry (filter (λ (row : ForceRow). usable row.on row.name row.value) rows))
forces-IsClean [] = tt
forces-IsClean (row ∷ rows) = elim (Bool-cases (usable row.on row.name row.value)) [
  | inl e ↦
      let (n, v, on) = usable-IsClean row.on row.name row.value e in
      rw e ((n, v), forces-IsClean rows)
  | inr e ↦ rw e (forces-IsClean rows)
]

script-IsClean :
    (rows : List ScriptRow)
    → All
        (λ (e : ScriptEntry). IsClean e.name × IsClean e.value)
        (map script_entry (filter (λ (row : ScriptRow). usable row.on row.name row.value) rows))
script-IsClean [] = tt
script-IsClean (row ∷ rows) = elim (Bool-cases (usable row.on row.name row.value)) [
  | inl e ↦
      let (n, v, on) = usable-IsClean row.on row.name row.value e in
      rw e ((n, v), script-IsClean rows)
  | inr e ↦ rw e (script-IsClean rows)
]

-- Every override and every record that is sent names a symbol and carries a value, both not blank and
-- with no blanks around them.
pub stimulus_payload-IsClean :
    (forces : List ForceRow) (script : List ScriptRow)
    → All
        (λ (e : ForceEntry). IsClean e.name × IsClean e.value)
        (stimulus_payload forces script).forces
      × All
          (λ (e : ScriptEntry). IsClean e.name × IsClean e.value)
          (stimulus_payload forces script).script
unfolding stimulus_payload
stimulus_payload-IsClean forces script = (forces-IsClean forces, script-IsClean script)

-- A row of the panel that is switched on and has a name and a value that are not blank.
abbrev pub IsMeant : Bool → String → String → Type 0
IsMeant on name value = (on ≡ true) × (trim name ≢ "") × (trim value ≢ "")

usable_iff :
    (on : Bool) (name value : String) → (usable on name value ≡ true) ↔ IsMeant on name value
unfolding usable
usable_iff on name value = ground (arith, eq_iff (trim name) "", eq_iff (trim value) "")

In-map-filter :
    {A B : Type 0} (f : A → B) (p : A → Bool) (P : A → Type 0)
    → ((a : A) → (p a ≡ true) ↔ P a)
    → (xs : List A) (b : B) → In b (map f (filter p xs)) ↔ ((a : A) × In a xs × P a × (b ≡ f a))
In-map-filter {A = A} f p P h xs b = (
  back xs,
  λ (a, m, q, e).
      subst (λ c. In c (map f (filter p xs))) (sym e)
        (In-map f a (filter p xs) (filter-In p a xs m ((h a).1 q))),
)
  where
    back : (xs : List A) → In b (map f (filter p xs)) → (a : A) × In a xs × P a × (b ≡ f a)
    back [] m = absurd m
    back (x ∷ xs) m = elim (Bool-cases (p x)) [
      | inr out ↦ let (a, n, q, e) = back xs (rw out at m) in (a, inr n, q, e)
      | inl kept ↦ elim (rw kept at m) [
        | inl e ↦ (x, inl refl, (h x).0 kept, e)
        | inr n ↦ let (a, k, q, e) = back xs n in (a, inr k, q, e)
      ]
    ]

-- A run request carries exactly the rows of the panel that are switched on and have a name and a value
-- that are not blank: an override for each such force and a record of its cycle for each such script
-- row, with no blanks around name and value.
pub stimulus_payload-In :
    (forces : List ForceRow) (script : List ScriptRow) (f : ForceEntry) (r : ScriptEntry)
    → (In f (stimulus_payload forces script).forces ↔ (
        (row : ForceRow) × In row forces
        × IsMeant row.on row.name row.value
        × (f ≡ record { name = trim row.name; value = trim row.value })))
      × (In r (stimulus_payload forces script).script ↔ (
          (row : ScriptRow) × In row script
          × IsMeant row.on row.name row.value
          × (r ≡ record { cycle = row.cycle; name = trim row.name; value = trim row.value })))
unfolding stimulus_payload
stimulus_payload-In forces script f r = (
  In-map-filter force_entry (λ (row : ForceRow). usable row.on row.name row.value)
      (λ row. IsMeant row.on row.name row.value) (λ row. usable_iff row.on row.name row.value)
      forces f,
  In-map-filter script_entry (λ (row : ScriptRow). usable row.on row.name row.value)
      (λ row. IsMeant row.on row.name row.value) (λ row. usable_iff row.on row.name row.value)
      script r,
)

suc_inj : {m n : ℕ} → suc m ≡ suc n → m ≡ n
suc_inj h = omega arith

abbrev letter_f : Char
letter_f = "f"

abbrev letter_s : Char
letter_s = "s"

heads_differ : (a b : String) → String.◌++◌ "force" a ≡ String.◌++◌ "script" b → ⊥
heads_differ a b e =
    let same =
      head-eq_of_cons-eq
        (sym (cons-append letter_f "orce" a) ∙ e ∙ cons-append letter_s "cript" b) in
    omega (arith, ap code same)

-- Two stimulus ids are equal only if they have the same prefix and were made at the same point of the
-- sequence, so that rows made one after the other are told apart.
pub new_stimulus_id_inj :
    (p q : Prefix) (m n : ℕ) → (new_stimulus_id p m).0 ≡ (new_stimulus_id q n).0 → (p ≡ q) × (m ≡ n)
unfolding new_stimulus_id
new_stimulus_id_inj Prefix.force Prefix.force m n e =
    (refl, suc_inj (decimal_inj (suc m) (suc n) (append_cancel_left "force" _ _ e)))
new_stimulus_id_inj Prefix.force Prefix.script m n e =
    absurd (heads_differ (decimal (suc m)) (decimal (suc n)) e)
new_stimulus_id_inj Prefix.script Prefix.force m n e =
    absurd (heads_differ (decimal (suc n)) (decimal (suc m)) (sym e))
new_stimulus_id_inj Prefix.script Prefix.script m n e =
    (refl, suc_inj (decimal_inj (suc m) (suc n) (append_cancel_left "script" _ _ e)))
