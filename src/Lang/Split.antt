-- ===== src/Lang/Split.antt =====
-- `text.split(c)` for one character, and `parts.join(text)`.
use Prim.Native.Char.{Char, code}
use Prim.Native.String
use text.Mathlib.TextLemmas.{nil-append, cons-append}
use text.Mathlib.TextEquality.{Char-path}
use veristc.Prelude.{
  ◌≡◌, refl, ap, ap₂, sym, ◌∙◌, String, List, [], ◌∷◌, nat_beq, nat_beq_iff, if◌then◌else◌,
  Bool-cases, inl, inr,
}

-- The parts of a text: there is always a first one.
pub record Parts : Type 0 where
  pub first : String
  pub others : List String

unfoldable pub split_on : Char → String → Parts
split_on sep String.[] = record { first = ""; others = [] }
split_on sep (String.◌∷◌ c s) =
    let rest = split_on sep s in
    if nat_beq (code c) (code sep)
    then record { first = ""; others = rest.first ∷ rest.others }
    else record { first = String.◌∷◌ c rest.first; others = rest.others }

abbrev pub join_with : String → List String → String
join_with sep [] = ""
join_with sep (s ∷ []) = s
join_with sep (s ∷ r ∷ rest) = String.◌++◌ s (String.◌++◌ sep (join_with sep (r ∷ rest)))

one_char : (c : Char) (t : String) → String.◌++◌ (String.◌∷◌ c "") t ≡ String.◌∷◌ c t
one_char c t = cons-append c "" t ∙ ap (String.◌∷◌ c) (nil-append t)

join_with-cons :
    (c : Char) (first sep : String) (others : List String)
    → join_with sep (String.◌∷◌ c first ∷ others) ≡ String.◌∷◌ c (join_with sep (first ∷ others))
join_with-cons c first sep [] = refl
join_with-cons c first sep (r ∷ rest) = cons-append c first _

-- The parts of a text, joined again by what parted them, are the text.
pub join_with-split_on :
    (sep : Char) (s : String)
    → join_with (String.◌∷◌ sep "") ((split_on sep s).first ∷ (split_on sep s).others) ≡ s
unfolding split_on
join_with-split_on sep String.[] = refl
join_with-split_on sep (String.◌∷◌ c s) = elim (Bool-cases (nat_beq (code c) (code sep))) [
  | inl here ↦ rw here (
      nil-append _
      ∙ one_char sep _
      ∙ ap₂ String.◌∷◌ (sym (Char-path c sep ((nat_beq_iff (code c) (code sep)).0 here)))
          (join_with-split_on sep s))
  | inr other ↦ rw other (
      join_with-cons c (split_on sep s).first (String.◌∷◌ sep "") (split_on sep s).others
      ∙ ap (String.◌∷◌ c) (join_with-split_on sep s))
]
