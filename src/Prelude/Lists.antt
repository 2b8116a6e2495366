-- ===== src/Prelude/Lists.antt =====
-- Lists measured, searched and filtered as the source's array methods do.
use Prim.Native.Nat.{ℕ, zero, suc, ◌+◌, ◌≤◌}
use mathlib.Core.Path.{◌≡◌, refl, ap, sym, subst}
use mathlib.Core.Logic.{◌⊎◌, inl, inr}
use mathlib.Core.Bool.{Bool, true, false, ◌||◌}
use mathlib.Core.List.{List, [], ◌∷◌, ◌++◌, map}
use mathlib.Core.Option.{Option, none, some}
use native.Mathlib.Omega.{arith}
use veristc.Prelude.Tests.{if◌then◌else◌, Bool-cases}

module _ {ℓ} {A : Type ℓ} where
  abbrev pub length : List A → ℕ
  length [] = 0
  length (x ∷ xs) = suc (length xs)

  abbrev pub get_elem? : List A → ℕ → Option A
  get_elem? [] i = none
  get_elem? (x ∷ xs) zero = some x
  get_elem? (x ∷ xs) (suc i) = get_elem? xs i

  -- `filter`, `some`, `every` and `find` of an array.
  abbrev pub filter : (A → Bool) → List A → List A
  filter p [] = []
  filter p (x ∷ xs) = if p x then x ∷ filter p xs else filter p xs

  abbrev pub any : (A → Bool) → List A → Bool
  any p [] = false
  any p (x ∷ xs) = p x || any p xs

  abbrev pub find : (A → Bool) → List A → Option A
  find p [] = none
  find p (x ∷ xs) = if p x then some x else find p xs

  abbrev pub is_nil : List A → Bool
  is_nil [] = true
  is_nil (x ∷ xs) = false

  -- How many items pass a test.
  abbrev pub count_p : (A → Bool) → List A → ℕ
  count_p p [] = 0
  count_p p (x ∷ xs) = (if p x then 1 else 0) + count_p p xs

  -- `filter((_, index) => index !== i)`, and nothing where `i` is past the end.
  abbrev pub erase_idx : List A → ℕ → List A
  erase_idx [] i = []
  erase_idx (x ∷ xs) zero = xs
  erase_idx (x ∷ xs) (suc i) = x ∷ erase_idx xs i

  abbrev pub take : ℕ → List A → List A
  take zero xs = []
  take (suc n) [] = []
  take (suc n) (x ∷ xs) = x ∷ take n xs

  abbrev pub drop : ℕ → List A → List A
  drop zero xs = xs
  drop (suc n) [] = []
  drop (suc n) (x ∷ xs) = drop n xs

  abbrev pub All {κ} : (A → Type κ) → List A → Type κ
  All P [] = Unit
  All P (x ∷ xs) = P x × All P xs

-- Membership that tactics read.
abbrev pub In : {A : Type 0} → A → List A → Type 0
In a [] = ⊥
In a (x ∷ xs) = (a ≡ x) ⊎ In a xs

module _ {ℓ} {A : Type ℓ} where
  pub length-append : (xs ys : List A) → length (xs ++ ys) ≡ length xs + length ys
  length-append [] ys = omega arith
  length-append (x ∷ xs) ys = omega (arith, length-append xs ys)

  pub length-map {κ} : {B : Type κ} (f : A → B) (xs : List A) → length (map f xs) ≡ length xs
  length-map f [] = refl
  length-map f (x ∷ xs) = ap suc (length-map f xs)

  pub All-append {κ} : (P : A → Type κ) (xs ys : List A) → All P xs → All P ys → All P (xs ++ ys)
  All-append P [] ys h k = k
  All-append P (x ∷ xs) ys h k = (h.0, All-append P xs ys h.1 k)

  -- What holds of all items holds without one of them, and of that one.
  pub All-split {κ} :
      (P : A → Type κ) (xs : List A) (x : A) (ys : List A)
      → All P (xs ++ x ∷ ys)
      → P x × All P (xs ++ ys)
  All-split P [] x ys h = h
  All-split P (z ∷ xs) x ys h = let (here, rest) = All-split P xs x ys h.1 in (here, (h.0, rest))

  pub All-filter {κ} :
      (P : A → Type κ) (p : A → Bool) (xs : List A) → All P xs → All P (filter p xs)
  All-filter P p [] h = tt
  All-filter P p (x ∷ xs) h = elim (Bool-cases (p x)) [
    | inl e ↦ rw e (h.0, All-filter P p xs h.1)
    | inr e ↦ rw e (All-filter P p xs h.1)
  ]

  -- What a filter keeps passes its test.
  pub filter-All : (p : A → Bool) (xs : List A) → All (λ x. p x ≡ true) (filter p xs)
  filter-All p [] = tt
  filter-All p (x ∷ xs) = elim (Bool-cases (p x)) [
    | inl e ↦ rw e (e, filter-All p xs)
    | inr e ↦ rw e (filter-All p xs)
  ]

  pub All-erase_idx {κ} : (P : A → Type κ) (xs : List A) (i : ℕ) → All P xs → All P (erase_idx xs i)
  All-erase_idx P [] i h = tt
  All-erase_idx P (x ∷ xs) zero h = h.1
  All-erase_idx P (x ∷ xs) (suc i) h = (h.0, All-erase_idx P xs i h.1)

  pub All-mono {κ μ} :
      {P : A → Type κ} {Q : A → Type μ} (f : (x : A) → P x → Q x) (xs : List A)
      → All P xs
      → All Q xs
  All-mono f [] h = tt
  All-mono f (x ∷ xs) h = (f x h.0, All-mono f xs h.1)

  pub count_p-append :
      (p : A → Bool) (xs ys : List A) → count_p p (xs ++ ys) ≡ count_p p xs + count_p p ys
  count_p-append p [] ys = omega arith
  count_p-append p (x ∷ xs) ys = omega (arith, count_p-append p xs ys)

  pub filter-filter : (p : A → Bool) (xs : List A) → filter p (filter p xs) ≡ filter p xs
  filter-filter p [] = refl
  filter-filter p (x ∷ xs) = elim (Bool-cases (p x)) [
    | inl e ↦ rw (e, e) (ap (x ∷◌) (filter-filter p xs))
    | inr e ↦ rw e (filter-filter p xs)
  ]

module _ {A : Type 0} where
  pub All-In {κ} : (P : A → Type κ) (xs : List A) → ((x : A) → In x xs → P x) → All P xs
  All-In P [] h = tt
  All-In P (x ∷ xs) h = (h x (inl refl), All-In P xs (λ y m. h y (inr m)))

  pub In-append_left : (a : A) (xs ys : List A) → In a xs → In a (xs ++ ys)
  In-append_left a [] ys m = absurd m
  In-append_left a (x ∷ xs) ys (inl e) = inl e
  In-append_left a (x ∷ xs) ys (inr m) = inr (In-append_left a xs ys m)

  pub In-append_right : (a : A) (xs ys : List A) → In a ys → In a (xs ++ ys)
  In-append_right a [] ys m = m
  In-append_right a (x ∷ xs) ys m = inr (In-append_right a xs ys m)

  pub In-append : (a : A) (xs ys : List A) → In a (xs ++ ys) → In a xs ⊎ In a ys
  In-append a [] ys m = inr m
  In-append a (x ∷ xs) ys (inl e) = inl (inl e)
  In-append a (x ∷ xs) ys (inr m) = elim (In-append a xs ys m) [
    | inl h ↦ inl (inr h)
    | inr h ↦ inr h
  ]

  pub In-map : {B : Type 0} (f : A → B) (a : A) (xs : List A) → In a xs → In (f a) (map f xs)
  In-map f a [] m = absurd m
  In-map f a (x ∷ xs) (inl e) = inl (ap f e)
  In-map f a (x ∷ xs) (inr m) = inr (In-map f a xs m)

  pub In-filter : (p : A → Bool) (a : A) (xs : List A) → In a (filter p xs) → In a xs × (p a ≡ true)
  In-filter p a [] m = absurd m
  In-filter p a (x ∷ xs) m = elim (Bool-cases (p x)) [
    | inl e ↦ ground (arith, In-filter p a xs)
    | inr e ↦ ground (arith, In-filter p a xs)
  ]

  pub filter-In : (p : A → Bool) (a : A) (xs : List A) → In a xs → p a ≡ true → In a (filter p xs)
  filter-In p a [] m t = absurd m
  filter-In p a (x ∷ xs) (inl e) t = rw (← e, t) (inl refl)
  filter-In p a (x ∷ xs) (inr m) t = elim (Bool-cases (p x)) [
    | inl e ↦ rw e (inr (filter-In p a xs m t))
    | inr e ↦ rw e (filter-In p a xs m t)
  ]

  pub count_p-filter-le : (p q : A → Bool) (xs : List A) → count_p p (filter q xs) ≤ count_p p xs
  count_p-filter-le p q [] = omega arith
  count_p-filter-le p q (x ∷ xs) = ground (arith, count_p-filter-le p q xs)

  pub All-In-get : (P : A → Type 0) (x : A) (xs : List A) → All P xs → In x xs → P x
  All-In-get P x [] h m = absurd m
  All-In-get P x (y ∷ xs) h (inl e) = subst P (sym e) h.0
  All-In-get P x (y ∷ xs) h (inr m) = All-In-get P x xs h.1 m
