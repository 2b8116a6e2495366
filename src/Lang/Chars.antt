-- ===== src/Lang/Chars.antt =====
-- Single characters, and tests on each character of a text.
use Prim.Native.Char.{Char, code}
use veristc.Prelude.{
  ℕ, zero, suc, ◌-◌, ◌≡◌, String, Bool, true, ◌&&◌, ◌||◌, leb, nat_beq, if◌then◌else◌, Bool-cases,
  inl, inr,
}

-- The character at a place of a text, or the other one past its end.
abbrev pub char_or : String → ℕ → Char → Char
char_or String.[] i d = d
char_or (String.◌∷◌ c s) zero d = c
char_or (String.◌∷◌ c s) (suc i) d = char_or s i d

abbrev alphabet : String
alphabet = "abcdefghijklmnopqrstuvwxyz"

-- `toLowerCase` of one character, where the result is told apart by a test for `[a-z0-9_]`: the two
-- other characters with an ASCII letter in their lower case are U+212A and U+0130.
unfoldable pub lower : Char → Char
lower c =
    if leb b'A' (code c) && leb (code c) b'Z'
    then char_or alphabet (code c - b'A') c
    else if nat_beq (code c) 0x212a
    then "k"
    else if nat_beq (code c) 0x130
    then "i"
    else c

-- `[a-z0-9_]`
unfoldable pub is_id_char : Char → Bool
is_id_char c =
    (leb b'a' (code c) && leb (code c) b'z')
    || ((leb b'0' (code c) && leb (code c) b'9') || nat_beq (code c) b'_')

unfoldable pub filter_chars : (Char → Bool) → String → String
filter_chars p String.[] = ""
filter_chars p (String.◌∷◌ c s) = if p c then String.◌∷◌ c (filter_chars p s) else filter_chars p s

unfoldable pub map_chars : (Char → Char) → String → String
map_chars f String.[] = ""
map_chars f (String.◌∷◌ c s) = String.◌∷◌ (f c) (map_chars f s)

-- Every character of a text passes a test.
abbrev pub AllChars : (Char → Bool) → String → Type 0
AllChars p String.[] = Unit
AllChars p (String.◌∷◌ c s) = (p c ≡ true) × AllChars p s

pub filter_chars-AllChars : (p : Char → Bool) (s : String) → AllChars p (filter_chars p s)
unfolding filter_chars
filter_chars-AllChars p String.[] = tt
filter_chars-AllChars p (String.◌∷◌ c s) = elim (Bool-cases (p c)) [
  | inl e ↦ rw e (e, filter_chars-AllChars p s)
  | inr e ↦ rw e (filter_chars-AllChars p s)
]
