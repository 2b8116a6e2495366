-- ===== src/Prelude/Text.antt =====
-- Texts: membership, keys and association lists.
use Prim.Native.String.{String}
use mathlib.Core.Path.{◌≡◌, refl}
use mathlib.Core.Logic.{inl, inr, ◌↔◌, ◌≢◌}
use mathlib.Core.Bool.{Bool, true, false, ◌||◌}
use mathlib.Core.List.{List, [], ◌∷◌, ◌++◌}
use mathlib.Core.Option.{Option, none, some}
use native.Mathlib.Omega.{arith}
use text.Mathlib.Text.{◌==◌}
use text.Mathlib.TextEquality.{eq_iff}
use veristc.Prelude.Tests.{if◌then◌else◌, Bool-cases}
use veristc.Prelude.Lists.{In}

-- `includes` of an array of texts.
abbrev pub contains : List String → String → Bool
contains [] a = false
contains (x ∷ xs) a = x == a || contains xs a

-- No text stands twice.
abbrev pub Nodup : List String → Type 0
Nodup [] = Unit
Nodup (x ∷ xs) = (contains xs x ≡ false) × Nodup xs

pub eq_false : (a b : String) → a ≢ b → (a == b) ≡ false
eq_false a b h = elim (Bool-cases (a == b)) [ inl e ↦ absurd (h ((eq_iff a b).0 e)) | inr e ↦ e ]

pub ne_of_eq_false : (a b : String) → (a == b) ≡ false → a ≢ b
ne_of_eq_false a b h = ground (arith, eq_iff a b)

pub contains-append :
    (xs ys : List String) (a : String) → contains (xs ++ ys) a ≡ (contains xs a || contains ys a)
contains-append [] ys a = refl
contains-append (x ∷ xs) ys a = ground (arith, contains-append xs ys a)

pub contains_iff : (xs : List String) (a : String) → (contains xs a ≡ true) ↔ In a xs
contains_iff [] a = (λ h. cc, λ m. absurd m)
contains_iff (x ∷ xs) a = ground (arith, contains_iff xs a, eq_iff x a)

pub Nodup-concat :
    (xs : List String) (a : String) → Nodup xs → contains xs a ≡ false → Nodup (xs ++ a ∷ [])
Nodup-concat [] a n h = (refl, tt)
Nodup-concat (x ∷ xs) a n h = (
  ground (arith, contains-append xs (a ∷ []) x, eq_iff x a, eq_iff a x),
  Nodup-concat xs a n.1 (ground arith),
)

-- A `Record<string, V>` or a `Map` as a list of entries: `table[key]`, and `table[key] = value`.
module _ {ℓ} {V : Type ℓ} where
  abbrev pub insert : String → V → List (String × V) → List (String × V)
  insert key value [] = (key, value) ∷ []
  insert key value ((name, old) ∷ table) =
      if name == key then (name, value) ∷ table else (name, old) ∷ insert key value table

  abbrev pub lookup : String → List (String × V) → Option V
  lookup key [] = none
  lookup key ((name, value) ∷ table) = if name == key then some value else lookup key table

  -- What a table holds after an entry was written.
  pub lookup-insert :
      (put key : String) (value : V) (table : List (String × V))
      → lookup key (insert put value table) ≡ (if put == key then some value else lookup key table)
  lookup-insert put key value [] = refl
  lookup-insert put key value ((name, old) ∷ table) =
      ground
        (arith, lookup-insert put key value table, eq_iff name put, eq_iff name key, eq_iff put key)
