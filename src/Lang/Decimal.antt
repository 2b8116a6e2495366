-- ===== src/Lang/Decimal.antt =====
-- `String(n)` of a natural number.
use Prim.Native.Char.{Char, code}
use native.Mathlib.Decide.{dec_lt}
use veristc.Prelude.{
  ◌≤◌, subst, false, ℕ, zero, suc, ◌+◌, ◌-◌, ◌*◌, ◌/◌, ◌%◌, ◌<◌, ◌≡◌, refl, sym, ap, ◌∙◌, String,
  ltb, nat_beq, nat_beq_iff, Bool, true, if◌then◌else◌, arith,
}
use veristc.Lang.Chars.{char_or}

unfoldable pub digit : ℕ → Char
digit d = char_or "0123456789" d "9"

-- So many numbers from `start` on pass a test, as evaluation finds.
passes : (ℕ → Bool) → ℕ → ℕ → Bool
passes test start zero = true
passes test start (suc rounds) =
    let later = passes test (suc start) rounds in if test start then later else false

passes_at :
    (test : ℕ → Bool) (start rounds d : ℕ)
    → start ≤ d
    → d < start + rounds
    → passes test start rounds ≡ true
    → test d ≡ true
unfolding passes
passes_at test start zero d low high all = absurd (omega arith)
passes_at test start (suc rounds) d low high all = elim (dec_lt start d) [
  | yes less ↦ passes_at test (suc start) rounds d (omega arith) (omega arith) (ground arith)
  | no same ↦ let e : start ≡ d = omega arith in subst (λ i. test i ≡ true) e (ground arith)
]

code-digit : (d : ℕ) → d < 10 → code (digit d) ≡ b'0' + d
unfolding passes digit
code-digit d h =
    (nat_beq_iff _ _).0
      (passes_at (λ i. nat_beq (code (digit i)) (b'0' + i)) 0 10 d (omega arith) (omega arith) refl)

-- The digits of `n` before a text. A number below the fuel is printed whole.
decimal_from : ℕ → ℕ → String → String
decimal_from zero n s = s
decimal_from (suc f) n s =
    let rest = decimal_from f (n / 10) (String.◌∷◌ (digit (n % 10)) s) in
    if ltb n 10 then String.◌∷◌ (digit n) s else rest

unfoldable pub decimal : ℕ → String
unfolding decimal_from digit
decimal n = decimal_from (suc n) n ""

-- The number that a text of digits reads as, behind a number that was read before it.
value : ℕ → String → ℕ
value acc String.[] = acc
value acc (String.◌∷◌ c s) = value (acc * 10 + (code c - b'0')) s

value-decimal_from : (f n : ℕ) (s : String) → n < f → value 0 (decimal_from f n s) ≡ value n s
unfolding decimal_from value
value-decimal_from zero n s h = absurd (omega arith)
value-decimal_from (suc f) n s h = ground (
  arith,
  code-digit n,
  code-digit (n % 10),
  value-decimal_from f (n / 10) (String.◌∷◌ (digit (n % 10)) s),
)

value-decimal : (n : ℕ) → value 0 (decimal n) ≡ n
unfolding decimal value
value-decimal n = value-decimal_from (suc n) n "" (omega arith)

pub decimal_inj : (m n : ℕ) → decimal m ≡ decimal n → m ≡ n
decimal_inj m n e = sym (value-decimal m) ∙ ap (value 0) e ∙ value-decimal n

-- How many characters a text has; `length` of a text of digits.
abbrev pub text_length : String → ℕ
text_length String.[] = 0
text_length (String.◌∷◌ c s) = suc (text_length s)

abbrev pub zeros : ℕ → String → String
zeros zero s = s
zeros (suc n) s = String.◌∷◌ "0" (zeros n s)

-- `padStart(width, "0")`
unfoldable pub pad_start : ℕ → String → String
pad_start width s = zeros (width - text_length s) s

value-zeros : (n : ℕ) (s : String) → value 0 (zeros n s) ≡ value 0 s
unfolding value
value-zeros zero s = refl
value-zeros (suc n) s = value-zeros n s

-- Numbers that are padded to one width are told apart.
pub pad_start-decimal_inj :
    (width m n : ℕ) → pad_start width (decimal m) ≡ pad_start width (decimal n) → m ≡ n
unfolding pad_start
pad_start-decimal_inj width m n e = sym (padded m) ∙ ap (value 0) e ∙ padded n
  where
    padded : (k : ℕ) → value 0 (pad_start width (decimal k)) ≡ k
    padded k = value-zeros (width - text_length (decimal k)) (decimal k) ∙ value-decimal k
