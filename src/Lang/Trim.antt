-- ===== src/Lang/Trim.antt =====
-- `trim` of a text.
use Prim.Native.Char.{Char, code}
use veristc.Prelude.{
  ◌≡◌, refl, ap, ◌∙◌, String, Bool, true, false, ◌&&◌, ◌||◌, leb, nat_beq, if◌then◌else◌,
  Bool-cases, inl, inr,
}

-- White space and line ends.
unfoldable pub is_space : Char → Bool
is_space c =
    (nat_beq (code c) 32 || (leb 9 (code c) && leb (code c) 13))
    || ((nat_beq (code c) 0xa0
          || (nat_beq (code c) 0x1680 || (leb 0x2000 (code c) && leb (code c) 0x200a)))
        || ((nat_beq (code c) 0x2028 || (nat_beq (code c) 0x2029 || nat_beq (code c) 0x202f))
            || (nat_beq (code c) 0x205f || (nat_beq (code c) 0x3000 || nat_beq (code c) 0xfeff))))

abbrev pub is_empty : String → Bool
is_empty String.[] = true
is_empty (String.◌∷◌ c s) = false

-- A text without the characters at its front, and at its end, that pass a test.
unfoldable pub drop_start : (Char → Bool) → String → String
drop_start p String.[] = ""
drop_start p (String.◌∷◌ c s) = if p c then drop_start p s else String.◌∷◌ c s

unfoldable pub drop_end : (Char → Bool) → String → String
drop_end p String.[] = ""
drop_end p (String.◌∷◌ c s) =
    if is_empty (drop_end p s) && p c then "" else String.◌∷◌ c (drop_end p s)

unfoldable pub trim : String → String
unfolding is_space drop_start drop_end
trim s = drop_end is_space (drop_start is_space s)

module _ (p : Char → Bool) where
  -- The first character of a text, if it has one, fails the test.
  abbrev pub StartsClear : String → Type 0
  StartsClear String.[] = Unit
  StartsClear (String.◌∷◌ c s) = p c ≡ false

  drop_start-StartsClear : (s : String) → StartsClear (drop_start p s)
  unfolding drop_start
  drop_start-StartsClear String.[] = tt
  drop_start-StartsClear (String.◌∷◌ c s) = elim (Bool-cases (p c)) [
    | inl e ↦ rw e (drop_start-StartsClear s)
    | inr e ↦ rw e e
  ]

  drop_start-fixed : (s : String) → StartsClear s → drop_start p s ≡ s
  unfolding drop_start
  drop_start-fixed String.[] h = refl
  drop_start-fixed (String.◌∷◌ c s) h = rw h

  drop_end-StartsClear : (s : String) → StartsClear s → StartsClear (drop_end p s)
  unfolding drop_end
  drop_end-StartsClear String.[] h = tt
  drop_end-StartsClear (String.◌∷◌ c s) h = elim (Bool-cases (is_empty (drop_end p s))) [
    | inl e ↦ rw (e, h) h
    | inr e ↦ rw e h
  ]

  drop_end_idempotent : (s : String) → drop_end p (drop_end p s) ≡ drop_end p s
  unfolding drop_end
  drop_end_idempotent String.[] = refl
  drop_end_idempotent (String.◌∷◌ c s) = elim (Bool-cases (is_empty (drop_end p s) && p c)) [
    | inl e ↦ rw e
    | inr e ↦ rw e (rw (drop_end_idempotent s, e))
  ]

-- Trimming a text twice trims it no further.
pub trim_idempotent : (s : String) → trim (trim s) ≡ trim s
unfolding trim
trim_idempotent s =
    ap (drop_end is_space) (
      drop_start-fixed is_space (trim s)
        (drop_end-StartsClear is_space (drop_start is_space s) (drop_start-StartsClear is_space s)))
    ∙ drop_end_idempotent is_space (drop_start is_space s)
