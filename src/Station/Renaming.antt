-- ===== src/Station/Renaming.antt =====
-- The names that a batch of points gets (components/device/PointBoard.tsx).
use text.Mathlib.TextLemmas.{append_cancel_left}
use veristc.Prelude.{
  ℕ, suc, ◌+◌, ◌<◌, ◌≤◌, ◌≡◌, sym, ◌∙◌, refl, String, eq_false, List, [], ◌∷◌, ◌++◌, ap, length,
  Nodup, contains, false, arith,
}
use veristc.Lang.Decimal.{decimal, pad_start, pad_start-decimal_inj}
use veristc.Station.Points.{Field}
use veristc.Station.Batch.{batch_name, edits_from, BatchEdit}

-- The names that a list of patches gives.
abbrev pub names_of : List Field → List String
names_of [] = []
names_of (Field.point_name name ∷ fs) = name ∷ names_of fs
names_of (_ ∷ fs) = names_of fs

abbrev pub given_names : List BatchEdit → List String
given_names [] = []
given_names (e ∷ es) = names_of e.patch ++ given_names es

batch_name_inj :
    (number_at : String → ℕ → String) (prefix start : String) (width first i j : ℕ)
    → number_at start i ≡ decimal (first + i)
    → number_at start j ≡ decimal (first + j)
    → batch_name number_at prefix width start i ≡ batch_name number_at prefix width start j
    → i ≡ j
unfolding batch_name
batch_name_inj number_at prefix start width first i j at_i at_j e =
    let same = pad_start-decimal_inj width (first + i) (first + j) (
      ap (pad_start width) (sym at_i)
      ∙ append_cancel_left prefix _ _ e
      ∙ ap (pad_start width) at_j) in
    omega (arith, same)

-- The numbers of a batch of so many points, from `first` on.
module _ (number_at : String → ℕ → String) (prefix start : String) (width first count : ℕ)
    (counts : (i : ℕ) → i < count → number_at start i ≡ decimal (first + i)) where
  abbrev build : ℕ → List Field
  build index = Field.point_name (batch_name number_at prefix width start index) ∷ []

  later_differ :
      (i j : ℕ) (targets : List String)
      → i < j
      → j + length targets ≤ count
      → contains
          (given_names (edits_from build j targets))
          (batch_name number_at prefix width start i)
        ≡ false
  later_differ i j [] h k = refl
  later_differ i j (t ∷ ts) h k =
      rw
        (eq_false (batch_name number_at prefix width start j)
          (batch_name number_at prefix width start i)
          (λ e. absurd (
            omega (
              arith,
              batch_name_inj number_at prefix start width first j i (counts j (omega (arith, k)))
                  (counts i (omega (arith, k, h))) e,
            ))))
        (later_differ i (suc j) ts (omega arith) (omega (arith, k)))

  pub given_names-Nodup :
      (i : ℕ) (targets : List String)
      → i + length targets ≤ count
      → Nodup (given_names (edits_from build i targets))
  given_names-Nodup i [] k = tt
  given_names-Nodup i (t ∷ ts) k = (
    later_differ i (suc i) ts (omega arith) (omega (arith, k)),
    given_names-Nodup (suc i) ts (omega (arith, k)),
  )
