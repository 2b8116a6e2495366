-- ===== src/Shell/Keys.antt =====
-- Which handler a key runs (lib/shortcuts.ts).
use veristc.Prelude.{
  ◌≡◌, ◌≢◌, refl, String, eq_iff, Bool, true, false, not, ◌&&◌, Option, none, some, or_else, List,
  [], ◌∷◌, ◌++◌, Bool-cases, inl, inr, ◌⊎◌, ◌↔◌, if◌then◌else◌, All, ap, arith,
}
use veristc.Shell.Shortcuts.{
  KeyEvent, ShortcutBinding, modifier_ok, in_input, is_hit, on_key, EditAction, edit_bindings,
}

-- A modifier that a binding names is held exactly if the binding wants it.
abbrev pub Holds : Option Bool → Bool → Type 0
Holds wanted held = (wanted ≡ none) ⊎ (wanted ≡ some held)

-- The key goes to a field for text or choices.
abbrev pub ToField : KeyEvent → Type 0
ToField e = (e.tag_name ≡ "INPUT") ⊎ (e.tag_name ≡ "TEXTAREA") ⊎ (e.tag_name ≡ "SELECT")

modifier_ok_iff :
    (wanted : Option Bool) (held : Bool) → (modifier_ok wanted held ≡ true) ↔ Holds wanted held
modifier_ok_iff none held = (λ h. inl refl, λ h. refl)
modifier_ok_iff (some true) true = (λ h. inr refl, λ h. refl)
modifier_ok_iff (some true) false =
    (λ h. absurd (cc h), λ h. absurd (elim h [ inl e ↦ cc e | inr e ↦ cc e ]))
modifier_ok_iff (some false) true =
    (λ h. absurd (cc h), λ h. absurd (elim h [ inl e ↦ cc e | inr e ↦ cc e ]))
modifier_ok_iff (some false) false = (λ h. inr refl, λ h. refl)

in_input_iff : (e : KeyEvent) → (in_input e ≡ true) ↔ ToField e
in_input_iff e =
    ground
      (arith, eq_iff e.tag_name "INPUT", eq_iff e.tag_name "TEXTAREA", eq_iff e.tag_name "SELECT")

field_ok_iff :
    (ignore : Option Bool) (e : KeyEvent)
    → (not (or_else ignore false && in_input e) ≡ true) ↔ ((ignore ≢ some true) ⊎ (¬ ToField e))
field_ok_iff none e = (λ h. inl (λ i. absurd (cc i)), λ h. refl)
field_ok_iff (some false) e = (λ h. inl (λ i. absurd (cc i)), λ h. refl)
field_ok_iff (some true) e = (
  λ h. inr (λ f. ground (arith, (in_input_iff e).1 f)),
  λ h. elim (Bool-cases (in_input e)) [
    | inr outside ↦ rw outside refl
    | inl inside ↦ elim h [
      | inl other ↦ absurd (other refl)
      | inr out ↦ absurd (out ((in_input_iff e).0 inside))
    ]
  ],
)

module _ (to_lower : String → String) {H : Type 0} where
  -- A binding fits a key: their lower case is the same, the modifiers that it names are held as it wants
  -- them, and it does not ignore fields where the key goes to one.
  pub record Fits (e : KeyEvent) (b : ShortcutBinding H) : Type 0 where
    pub key : to_lower e.key ≡ to_lower b.key
    pub ctrl : Holds b.ctrl e.ctrl_key
    pub shift : Holds b.shift e.shift_key
    pub alt : Holds b.alt e.alt_key
    pub field : (b.ignore_in_input ≢ some true) ⊎ (¬ ToField e)

  is_hit-true : (e : KeyEvent) (b : ShortcutBinding H) → is_hit to_lower e b ≡ true → Fits e b
  is_hit-true e b h = record {
    key = ground (arith, eq_iff (to_lower e.key) (to_lower b.key));
    ctrl = (modifier_ok_iff b.ctrl e.ctrl_key).0 (ground arith);
    shift = (modifier_ok_iff b.shift e.shift_key).0 (ground arith);
    alt = (modifier_ok_iff b.alt e.alt_key).0 (ground arith);
    field = (field_ok_iff b.ignore_in_input e).0 (ground arith);
  }

  is_hit-Fits : (e : KeyEvent) (b : ShortcutBinding H) → Fits e b → is_hit to_lower e b ≡ true
  is_hit-Fits e b h = ground (
    arith,
    eq_iff (to_lower e.key) (to_lower b.key),
    h.key,
    (modifier_ok_iff b.ctrl e.ctrl_key).1 h.ctrl,
    (modifier_ok_iff b.shift e.shift_key).1 h.shift,
    (modifier_ok_iff b.alt e.alt_key).1 h.alt,
    (field_ok_iff b.ignore_in_input e).1 h.field,
  )

  -- A key runs the handler of the first binding that fits it, and prevents the browser's own action if
  -- that binding says so; the bindings in front of it do not fit. If it runs none, no binding fits.
  pub on_key-first :
      (bs : List (ShortcutBinding H)) (e : KeyEvent)
      → ((on_key to_lower bs e ≡ none) × All (λ b. ¬ Fits e b) bs)
        ⊎ ((pre : List (ShortcutBinding H)) × (b : ShortcutBinding H) × (post : List
              (ShortcutBinding H))
            × (bs ≡ pre ++ b ∷ post)
            × All (λ c. ¬ Fits e c) pre
            × Fits e b
            × (on_key to_lower bs e ≡ some (b.handler, or_else b.prevent_default false)))
  unfolding on_key
  on_key-first [] e = inl (refl, tt)
  on_key-first (b ∷ bs) e = elim (Bool-cases (is_hit to_lower e b)) [
    | inl h ↦ inr ([], b, bs, refl, tt, is_hit-true e b h, rw h refl)
    | inr h ↦
        let misses : ¬ Fits e b = λ f. absurd (cc (is_hit-Fits e b f, h)) in
        elim (on_key-first bs e) [
          | inl (nothing, all) ↦ inl (rw h nothing, (misses, all))
          | inr (pre, c, post, split, before, fits, runs) ↦
              inr (b ∷ pre, c, post, ap (b ∷◌) split, (misses, before), fits, rw h runs)
        ]
  ]

-- Ctrl and Z undo without Shift and redo with it, in every element of the page, where the browser's
-- lower case leaves the two letters as they are.
pub on_key-edit_bindings :
    (to_lower : String → String) (e : KeyEvent)
    → to_lower "s" ≡ "s"
    → to_lower "z" ≡ "z"
    → to_lower e.key ≡ "z"
    → e.ctrl_key ≡ true
    → on_key to_lower edit_bindings e
      ≡ some (if e.shift_key then EditAction.redo else EditAction.undo, false)
unfolding on_key
on_key-edit_bindings to_lower e hs hz hk hc =
    split e.key e.tag_name e.ctrl_key e.shift_key e.alt_key hk hc
  where
    split :
        (key tag : String) (ctrl shift alt : Bool)
        → to_lower key ≡ "z"
        → ctrl ≡ true
        → on_key to_lower edit_bindings (record {
          key = key;
          ctrl_key = ctrl;
          shift_key = shift;
          alt_key = alt;
          tag_name = tag;
        })
          ≡ some (if shift then EditAction.redo else EditAction.undo, false)
    split key tag false shift alt h c = absurd (cc c)
    split key tag true true alt h c = rw (h, hs, hz) refl
    split key tag true false alt h c = rw (h, hs, hz) refl
