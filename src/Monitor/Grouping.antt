-- ===== src/Monitor/Grouping.antt =====
-- The groups of the parameters, and what is selected and sent (components/monitor/ParameterEditor.tsx).
use Prim.Native.Char.{code}
use Prim.Native.String
use veristc.Prelude.{
  ◌≡◌, refl, ap, ◌∙◌, nat_beq, Option, none, some, String, ◌==◌, eq_iff, or_else, List, [], ◌∷◌,
  filter, any, Bool, true, false, not, ◌&&◌, ◌||◌, if◌then◌else◌, Bool-cases, inl, inr, ◌⊎◌,
  contains, contains-append, lookup, arith, is_nil,
}
use veristc.Lang.Grouped.{group-groups_by}
use veristc.Lang.Split.{split_on, join_with, join_with-split_on}
use veristc.Monitor.Params.{
  Variable, block_of, param_name_only, is_parameter, parameter_groups, set_add, set_delete, add_all,
  delete_all, check_group, ParamEditor,
}

-- The text in front of the first underscore, where there is one.
abbrev pub before_underscore : String → Option String
before_underscore String.[] = none
before_underscore (String.◌∷◌ c s) =
    let rest = before_underscore s in
    if nat_beq (code c) b'_'
    then some ""
    else elim rest [ none ↦ none | some front ↦ some (String.◌∷◌ c front) ]

-- How a text is split, in the words of `before_underscore`.
split_on-before :
    (s : String)
    → ((before_underscore s ≡ none) × ((split_on "_" s).others ≡ []))
      ⊎ ((before_underscore s ≡ some (split_on "_" s).first)
          × (is_nil (split_on "_" s).others ≡ false))
unfolding split_on
split_on-before String.[] = inl (refl, refl)
split_on-before (String.◌∷◌ c s) = elim (Bool-cases (nat_beq (code c) b'_')) [
  | inl here ↦ rw here (inr (refl, refl))
  | inr other ↦ elim (split_on-before s) [
    | inl (nothing, alone) ↦ inl (rw (other, nothing) refl, rw other alone)
    | inr (front, more) ↦ inr (rw (other, front) refl, rw other more)
  ]
]

-- A block is the text in front of the first underscore of a name, or MAIN for a name without one.
block_of-before : (name : String) → block_of name ≡ or_else (before_underscore name) "MAIN"
unfolding block_of
block_of-before name = elim (split_on-before name) [
  | inl (nothing, alone) ↦ rw (nothing, alone) refl
  | inr (front, more) ↦ rw (front, more) refl
]

-- The group of a name holds, in the order in which they came, exactly the variables of type LOCAL or
-- GLOBAL that have that name in front of their first underscore; those without an underscore are in
-- the group MAIN.
pub lookup-parameter_groups :
    (id : String) (vs : List Variable)
    → or_else (lookup id (parameter_groups vs)) []
      ≡ filter
          (λ (v : Variable).
            (v.var_type == "LOCAL" || v.var_type == "GLOBAL")
            && or_else (before_underscore v.name) "MAIN" == id)
          vs
unfolding parameter_groups is_parameter
lookup-parameter_groups id vs =
    group-groups_by is_parameter (λ (v : Variable). block_of v.name) id vs []
    ∙ ap (λ (key_of : Variable → String). filter (λ v. is_parameter v && key_of v == id) vs)
        (λ i v. block_of-before v.name i)

-- A name with an underscore is put together of the text in front of its first underscore, which is
-- its block, an underscore and the parameter's name. One without is the parameter's name as it is,
-- and its block is MAIN.
pub block_of-param_name_only :
    (name : String)
    → ((before_underscore name ≡ none) × (block_of name ≡ "MAIN") × (param_name_only name ≡ name))
      ⊎ ((front : String) × (before_underscore name ≡ some front)
          × (block_of name ≡ front)
          × (String.◌++◌ front (String.◌++◌ "_" (param_name_only name)) ≡ name))
unfolding block_of param_name_only
block_of-param_name_only name = elim (split_on-before name) [
  | inl (nothing, alone) ↦ inl (nothing, rw alone refl, rw alone refl)
  | inr (front, more) ↦ inr ((split_on "_" name).first, front, rw more refl, rw more (whole more))
]
  where
    joined :
        (first : String) (others : List String)
        → is_nil others ≡ false
        → String.◌++◌ first (String.◌++◌ "_" (join_with "_" others))
          ≡ join_with "_" (first ∷ others)
    joined first [] e = absurd (cc e)
    joined first (s ∷ others) e = refl

    whole :
        is_nil (split_on "_" name).others ≡ false
        → String.◌++◌
            (split_on "_" name).first
            (String.◌++◌ "_" (join_with "_" (split_on "_" name).others))
          ≡ name
    whole more =
        joined (split_on "_" name).first (split_on "_" name).others more
        ∙ join_with-split_on "_" name

contains-set_add :
    (a b : String) (xs : List String) → contains (set_add a xs) b ≡ (a == b || contains xs b)
contains-set_add a b xs = elim (Bool-cases (contains xs a)) [
  | inl old ↦ rw old (ground (arith, eq_iff a b))
  | inr new ↦ rw (new, contains-append xs (a ∷ []) b) (ground arith)
]

contains-set_delete :
    (a b : String) (xs : List String)
    → contains (set_delete a xs) b ≡ (not (a == b) && contains xs b)
contains-set_delete a b [] = ground arith
contains-set_delete a b (x ∷ xs) =
    ground (arith, contains-set_delete a b xs, eq_iff x a, eq_iff x b, eq_iff a b)

abbrev pub is_of : List Variable → String → Bool
is_of params name = any (λ (p : Variable). p.name == name) params

contains-add_all :
    (params : List Variable) (xs : List String) (b : String)
    → contains (add_all params xs) b ≡ (is_of params b || contains xs b)
unfolding add_all
contains-add_all [] xs b = refl
contains-add_all (p ∷ ps) xs b =
    ground (arith, contains-add_all ps (set_add p.name xs) b, contains-set_add p.name b xs)

contains-delete_all :
    (params : List Variable) (xs : List String) (b : String)
    → contains (delete_all params xs) b ≡ (not (is_of params b) && contains xs b)
unfolding delete_all
contains-delete_all [] xs b = refl
contains-delete_all (p ∷ ps) xs b =
    ground (arith, contains-delete_all ps (set_delete p.name xs) b, contains-set_delete p.name b xs)

-- A click on the checkbox of a group selects all its parameters, or none of them, and leaves the others
-- as they were.
pub check_group-selected :
    (checked : Bool) (params : List Variable) (e : ParamEditor) (name : String)
    → contains (check_group checked params e).selected_for_batch name
      ≡ (if is_of params name then checked else contains e.selected_for_batch name)
unfolding check_group
check_group-selected true params e name =
    ground (arith, contains-add_all params e.selected_for_batch name)
check_group-selected false params e name =
    ground (arith, contains-delete_all params e.selected_for_batch name)
