-- ===== src/Blocks/Zipper.antt =====
-- What the history of the block editor promises, on its own: the states before the present one, nearest
-- first, and those that can be redone. These are descriptions of their own, not code of the program.
use veristc.Prelude.{
  ℕ, suc, ◌+◌, ◌≡◌, refl, ap, ◌∙◌, List, [], ◌∷◌, ◌++◌, length, take, drop, get_elem?, arith,
}
use veristc.Blocks.Types.{Snapshot}

pub record Zipper : Type 0 where
  pub past : List Snapshot
  pub present : Snapshot
  pub future : List Snapshot

-- The states before the present one that are kept at most.
abbrev pub past_limit : ℕ
past_limit = 79

abbrev pub change : Snapshot → Zipper → Zipper
change s z = record { past = take past_limit (z.present ∷ z.past); present = s; future = [] }

abbrev back_from : List Snapshot → Zipper → Zipper
back_from [] z = z
back_from (s ∷ past) z = record { past = past; present = s; future = z.present ∷ z.future }

abbrev pub back : Zipper → Zipper
back z = back_from z.past z

abbrev forth_to : List Snapshot → Zipper → Zipper
forth_to [] z = z
forth_to (s ∷ future) z = record { past = z.present ∷ z.past; present = s; future = future }

abbrev pub forth : Zipper → Zipper
forth z = forth_to z.future z

-- States in the order of time: those before, nearest first, in front of the rest.
abbrev pub rev_onto : List Snapshot → List Snapshot → List Snapshot
rev_onto [] rest = rest
rev_onto (s ∷ past) rest = rev_onto past (s ∷ rest)

pub length-rev_onto :
    (past rest : List Snapshot) → length (rev_onto past rest) ≡ length past + length rest
length-rev_onto [] rest = omega arith
length-rev_onto (s ∷ past) rest = omega (arith, length-rev_onto past (s ∷ rest))

pub rev_onto-append :
    (past rest more : List Snapshot) → rev_onto past rest ++ more ≡ rev_onto past (rest ++ more)
rev_onto-append [] rest more = refl
rev_onto-append (s ∷ past) rest more = rev_onto-append past (s ∷ rest) more

pub get_elem?-rev_onto :
    (n : ℕ) (past rest : List Snapshot)
    → get_elem? (rev_onto past rest) (length past + n) ≡ get_elem? rest n
get_elem?-rev_onto n [] rest = ap (get_elem? rest) (omega arith)
get_elem?-rev_onto n (s ∷ past) rest =
    ap (get_elem? (rev_onto past (s ∷ rest))) (omega arith)
    ∙ get_elem?-rev_onto (suc n) past (s ∷ rest)

pub take-rev_onto :
    (n : ℕ) (past rest : List Snapshot)
    → take (length past + n) (rev_onto past rest) ≡ rev_onto past (take n rest)
take-rev_onto n [] rest = ap (λ k. take k rest) (omega arith)
take-rev_onto n (s ∷ past) rest =
    ap (λ k. take k (rev_onto past (s ∷ rest))) (omega arith)
    ∙ take-rev_onto (suc n) past (s ∷ rest)

-- Without its first state, a history loses the oldest one.
pub drop-rev_onto :
    (s : Snapshot) (past rest : List Snapshot)
    → drop 1 (rev_onto (s ∷ past) rest) ≡ rev_onto (take (length past) (s ∷ past)) rest
drop-rev_onto s [] rest = refl
drop-rev_onto s (t ∷ past) rest = drop-rev_onto t past (s ∷ rest)
