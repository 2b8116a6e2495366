-- ===== src/Blocks/Svg.antt =====
-- The drawing of a block's symbol (`generateSymbolSvg`, components/library/BlockEditor.tsx).
use Prim.Native.Nat.{max}
use Prim.Native.Char.{Char, code}
use Prim.Native.String
use text.Mathlib.TextLemmas.{nil-append, cons-append}
use veristc.Prelude.{
  ℕ, suc, ◌+◌, ◌-◌, ◌*◌, ◌/◌, ltb, nat_beq, refl, String, if◌then◌else◌, List, [], ◌∷◌, length,
  Bool, not, Bool-cases, inl, inr,
}
use veristc.Lang.Chars.{AllChars}
use veristc.Lang.Decimal.{decimal}
use veristc.Lang.Split.{join_with}
use veristc.Blocks.Types.{BlockPort, BlockParameter, AlgorithmBlock}

-- `replace(/c/g, text)` of one character.
unfoldable pub replace_char : ℕ → String → String → String
replace_char c text String.[] = ""
replace_char c text (String.◌∷◌ d s) =
    let rest = replace_char c text s in
    if nat_beq (code d) c then String.◌++◌ text rest else String.◌∷◌ d rest

unfoldable pub escape_xml : String → String
unfolding replace_char
escape_xml s =
    replace_char b'"' "&quot;"
      (replace_char b'>' "&gt;" (replace_char b'<' "&lt;" (replace_char b'&' "&amp;" s)))

abbrev concat : List String → String
concat [] = ""
concat (s ∷ ss) = String.◌++◌ s (concat ss)

abbrev width : ℕ
width = 160

-- The line and the two texts of a pin, from their places and colours.
unfoldable pub pin_svg : ℕ → ℕ → ℕ → String → String → ℕ → BlockPort → String
unfolding escape_xml decimal
pin_svg x1 x2 x color anchor i p = concat (
    "<line x1=\""
    ∷ decimal x1
    ∷ "\" y1=\""
    ∷ decimal (20 + i * 28)
    ∷ "\" x2=\""
    ∷ decimal x2
    ∷ "\" y2=\""
    ∷ decimal (20 + i * 28)
    ∷ "\" stroke=\"#9ca3af\" stroke-width=\"1.5\"/>\n         <text x=\""
    ∷ decimal x
    ∷ "\" y=\""
    ∷ decimal (24 + i * 28)
    ∷ "\" fill=\""
    ∷ color
    ∷ "\" font-size=\"10\" font-family=\"monospace\""
    ∷ anchor
    ∷ ">"
    ∷ escape_xml p.name
    ∷ "</text>\n         <text x=\""
    ∷ decimal x
    ∷ "\" y=\""
    ∷ decimal (36 + i * 28)
    ∷ "\" fill=\"#6b7280\" font-size=\"8\" font-family=\"monospace\""
    ∷ anchor
    ∷ ">"
    ∷ escape_xml p.data_type
    ∷ "</text>"
    ∷ [])

unfoldable pub inputs_svg : ℕ → List BlockPort → List String
unfolding pin_svg
inputs_svg i [] = []
inputs_svg i (p ∷ ps) = pin_svg 0 12 16 "#60a5fa" "" i p ∷ inputs_svg (suc i) ps

unfoldable pub outputs_svg : ℕ → List BlockPort → List String
unfolding pin_svg
outputs_svg i [] = []
outputs_svg i (p ∷ ps) =
    pin_svg (width - 12) width (width - 16) "#34d399" " text-anchor=\"end\"" i p
    ∷ outputs_svg (suc i) ps

unfoldable pub params_svg : ℕ → ℕ → List BlockParameter → List String
unfolding escape_xml decimal
params_svg height i [] = []
params_svg height i (p ∷ ps) =
    concat (
      "<text x=\""
      ∷ decimal (width / 2)
      ∷ "\" y=\""
      ∷ decimal (height + 16 + i * 20)
      ∷ "\" fill=\"#fb923c\" font-size=\"9\" font-family=\"monospace\" text-anchor=\"middle\">"
      ∷ escape_xml p.name
      ∷ " : "
      ∷ escape_xml p.data_type
      ∷ "</text>"
      ∷ [])
    ∷ params_svg height (suc i) ps

unfoldable pub symbol_height : AlgorithmBlock → ℕ
symbol_height block = max 80 (max (max (length block.inputs) (length block.outputs)) 1 * 28 + 24)

unfoldable pub total_height : AlgorithmBlock → ℕ
unfolding symbol_height
total_height block =
    if ltb 0 (length block.parameters)
    then symbol_height block + length block.parameters * 20
    else symbol_height block

unfoldable pub generate_symbol_svg : AlgorithmBlock → String
unfolding escape_xml inputs_svg outputs_svg params_svg symbol_height total_height decimal
generate_symbol_svg block =
    let height : ℕ = symbol_height block in
    let total : ℕ = total_height block in
    concat (
      "<svg xmlns=\"http://www.w3.org/2000/svg\" viewBox=\"-4 -4 "
      ∷ decimal (width + 8)
      ∷ " "
      ∷ decimal (total + 8)
      ∷ "\" width=\""
      ∷ decimal (width + 8)
      ∷ "\" height=\""
      ∷ decimal (total + 8)
      ∷ "\">\n    <rect x=\"8\" y=\"4\" width=\""
      ∷ decimal (width - 16)
      ∷ "\" height=\""
      ∷ decimal (height - 8)
      ∷ "\" rx=\"3\" fill=\"#1e293b\" stroke=\"#475569\" stroke-width=\"1.5\"/>\n    <text x=\""
      ∷ decimal (width / 2)
      ∷ "\" y=\""
      ∷ decimal (height - 10)
      ∷ "\" fill=\"#e2e8f0\" font-size=\"12\" font-family=\"monospace\" font-weight=\"bold\" text-anchor=\"middle\">"
      ∷ escape_xml block.name
      ∷ "</text>\n    "
      ∷ join_with "\n" (inputs_svg 0 block.inputs)
      ∷ "\n    "
      ∷ join_with "\n" (outputs_svg 0 block.outputs)
      ∷ "\n    "
      ∷ join_with "\n" (params_svg height 0 block.parameters)
      ∷ "\n  </svg>"
      ∷ [])

AllChars-append :
    (p : Char → Bool) (s t : String) → AllChars p s → AllChars p t → AllChars p (String.◌++◌ s t)
AllChars-append p String.[] t h k = rw (nil-append t) k
AllChars-append p (String.◌∷◌ c s) t h k = rw (cons-append c s t) (h.0, AllChars-append p s t h.1 k)

-- No character of this number.
abbrev pub without : ℕ → Char → Bool
without n c = not (nat_beq (code c) n)

replace_char-gone :
    (c : ℕ) (text s : String)
    → AllChars (without c) text
    → AllChars (without c) (replace_char c text s)
unfolding replace_char
replace_char-gone c text String.[] h = tt
replace_char-gone c text (String.◌∷◌ d s) h = elim (Bool-cases (nat_beq (code d) c)) [
  | inl here ↦ rw here (AllChars-append (without c) text _ h (replace_char-gone c text s h))
  | inr other ↦ rw other (rw other refl, replace_char-gone c text s h)
]

replace_char-keeps :
    (p : Char → Bool) (c : ℕ) (text s : String)
    → AllChars p text
    → AllChars p s
    → AllChars p (replace_char c text s)
unfolding replace_char
replace_char-keeps p c text String.[] h k = tt
replace_char-keeps p c text (String.◌∷◌ d s) h k = elim (Bool-cases (nat_beq (code d) c)) [
  | inl here ↦ rw here (AllChars-append p text _ h (replace_char-keeps p c text s h k.1))
  | inr other ↦ rw other (k.0, replace_char-keeps p c text s h k.1)
]

-- A name that is put into the drawing brings no angle bracket and no quotation mark with it.
pub escape_xml-AllChars :
    (s : String)
    → AllChars (without b'<') (escape_xml s)
      × AllChars (without b'>') (escape_xml s)
      × AllChars (without b'"') (escape_xml s)
unfolding escape_xml
escape_xml-AllChars s =
    let amp = replace_char b'&' "&amp;" s in
    let lt = replace_char b'<' "&lt;" amp in
    let gt = replace_char b'>' "&gt;" lt in
    (
      replace_char-keeps (without b'<') b'"' "&quot;" gt
          (refl, (refl, (refl, (refl, (refl, (refl, tt))))))
          (replace_char-keeps (without b'<') b'>' "&gt;" lt (refl, (refl, (refl, (refl, tt))))
            (replace_char-gone b'<' "&lt;" amp (refl, (refl, (refl, (refl, tt)))))),
      replace_char-keeps (without b'>') b'"' "&quot;" gt
          (refl, (refl, (refl, (refl, (refl, (refl, tt))))))
          (replace_char-gone b'>' "&gt;" lt (refl, (refl, (refl, (refl, tt))))),
      replace_char-gone b'"' "&quot;" gt (refl, (refl, (refl, (refl, (refl, (refl, tt)))))),
    )
