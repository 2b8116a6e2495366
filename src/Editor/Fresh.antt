-- ===== src/Editor/Fresh.antt =====
-- The search of `uniqueId` for a free name (pages/GraphEditorPage.tsx).
use text.Mathlib.TextLemmas.{append_cancel_left}
use native.Mathlib.Decide.{dec_lt}
use veristc.Prelude.{
  All, ap, sym, ◌∙◌, ℕ, zero, suc, ◌+◌, ◌-◌, ◌≤◌, ◌<◌, ◌≡◌, ◌≢◌, refl, String, ◌==◌, eq_iff, List,
  [], ◌∷◌, true, false, not, contains, length, filter, arith, Bool-cases, inl, inr, subst,
}
use veristc.Lang.Decimal.{decimal, decimal_inj}
use veristc.Editor.Names.{id_base, candidate, unique_from, unique_id}

candidate_inj : (base : String) (i j : ℕ) → candidate base i ≡ candidate base j → i ≡ j
unfolding candidate
candidate_inj base i j e = decimal_inj i j (append_cancel_left base (decimal i) (decimal j) e)

-- The names without one of them.
abbrev without : String → List String → List String
without a xs = filter (λ x. not (x == a)) xs

without-le : (a : String) (xs : List String) → length (without a xs) ≤ length xs
without-le a [] = omega arith
without-le a (x ∷ xs) = ground (arith, without-le a xs)

without-lt :
    (a : String) (xs : List String) → contains xs a ≡ true → length (without a xs) < length xs
without-lt a [] h = absurd (cc h)
without-lt a (x ∷ xs) h = ground (arith, without-lt a xs, without-le a xs)

contains-without :
    (a b : String) (xs : List String)
    → a ≢ b
    → contains xs b ≡ true
    → contains (without a xs) b ≡ true
contains-without a b [] n h = h
contains-without a b (x ∷ xs) n h =
    ground (arith, contains-without a b xs n, eq_iff x a, eq_iff x b, eq_iff a b)

-- So many candidates in a row can be taken only by as many names.
pigeonhole :
    (n start : ℕ) (base : String) (taken : List String)
    → ((i : ℕ) → start ≤ i → i < start + n → contains taken (candidate base i) ≡ true)
    → n ≤ length taken
pigeonhole zero start base taken h = omega arith
pigeonhole (suc n) start base taken h =
    let fewer = pigeonhole n (suc start) base (without (candidate base start) taken) (λ i lo hi.
      contains-without (candidate base start) (candidate base i) taken
        (λ e. absurd (omega (arith, candidate_inj base start i e)))
        (h i (omega arith) (omega arith))) in
    omega (arith, without-lt (candidate base start) taken (h start (omega arith) (omega arith)))

-- What holds below a bound and at it.
extend :
    (P : ℕ → Type 0) (low bound : ℕ)
    → ((i : ℕ) → low ≤ i → i < bound → P i)
    → P bound
    → (i : ℕ) → low ≤ i
    → i < suc bound
    → P i
extend P low bound h here i lo hi = elim (dec_lt i bound) [
  | yes below ↦ h i lo below
  | no at ↦ let same : bound ≡ i = omega arith in subst P same here
]

-- The id of a search from `start`, when all candidates before it have been seen to be taken.
pub unique_from_lem :
    (low rounds start : ℕ) (base : String) (taken : List String)
    → ((i : ℕ) → low ≤ i → i < start → contains taken (candidate base i) ≡ true)
    → low ≤ start
    → start + rounds ≡ low + length taken
    → (k : ℕ) × (unique_from rounds base taken start ≡ candidate base k)
      × (low ≤ k)
      × (contains taken (candidate base k) ≡ false)
      × ((i : ℕ) → low ≤ i → i < k → contains taken (candidate base i) ≡ true)
unfolding unique_from
unique_from_lem low zero start base taken h p e =
    elim (Bool-cases (contains taken (candidate base start))) [
      | inl full ↦ absurd (
          omega (
            arith,
            pigeonhole (suc start - low) low base taken (λ i lo hi.
                extend (λ i. contains taken (candidate base i) ≡ true) low start h full i lo
                  (omega arith)),
          ))
      | inr free ↦ (start, refl, p, free, h)
    ]
unique_from_lem low (suc rounds) start base taken h p e =
    elim (Bool-cases (contains taken (candidate base start))) [
      | inl full ↦ rw full (
          unique_from_lem low rounds (suc start) base taken
            (λ i lo hi.
              extend (λ i. contains taken (candidate base i) ≡ true) low start h full i lo
                (omega arith))
            (omega arith) (omega arith))
      | inr free ↦ rw free (start, refl, p, free, h)
    ]

-- So many numbers in a row.
abbrev pub counting : ℕ → ℕ → List ℕ
counting zero start = []
counting (suc n) start = start ∷ counting n (suc start)

All-counting :
    (P : ℕ → Type 0) (n start : ℕ)
    → ((i : ℕ) → start ≤ i → i < start + n → P i)
    → All P (counting n start)
All-counting P zero start h = tt
All-counting P (suc n) start h = (
  h start (omega arith) (omega arith),
  All-counting P n (suc start) (λ i lo hi. h i (omega arith) (omega arith)),
)

-- An id that the editor makes is the base of its name and a number from 1 on, and it is no taken name;
-- all smaller numbers from 1 on give taken names.
pub unique_id-IsFirst :
    (taken : List String) (stem : String)
    → (k : ℕ) × (unique_id taken stem ≡ candidate (id_base stem) (suc k))
      × (contains taken (unique_id taken stem) ≡ false)
      × All (λ i. contains taken (candidate (id_base stem) i) ≡ true) (counting k 1)
unfolding unique_id
unique_id-IsFirst taken stem =
    let (k, same, low, free, before) =
      unique_from_lem 1 (length taken) 1 (id_base stem) taken (λ i lo hi. absurd (omega arith))
        (omega arith) (omega arith) in
    let back : suc (k - 1) ≡ k = omega arith in
    (
      k - 1,
      same ∙ ap (candidate (id_base stem)) (sym back),
      rw same free,
      All-counting (λ i. contains taken (candidate (id_base stem) i) ≡ true) (k - 1) 1
          (λ i lo hi. before i lo (omega (arith, low))),
    )

-- An id that the editor makes is no taken name.
pub contains-unique_id :
    (taken : List String) (stem : String) → contains taken (unique_id taken stem) ≡ false
contains-unique_id taken stem = (unique_id-IsFirst taken stem).2
