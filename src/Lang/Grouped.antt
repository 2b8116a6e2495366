-- ===== src/Lang/Grouped.antt =====
-- Items put into groups by a key, in a `Map` of arrays or an object of arrays.
use veristc.Prelude.{
  ◌≡◌, refl, sym, String, ◌==◌, eq_iff, if◌then◌else◌, Bool, ◌&&◌, or_else, List, [], ◌∷◌, ◌++◌,
  append_assoc, append-nil, filter, lookup, arith, Bool-cases, inl, inr,
}

module _ {A : Type 0} where
  -- `groups[key].push(item)`, with a new group where there is none.
  unfoldable pub push_group : String → A → List (String × List A) → List (String × List A)
  push_group key item [] = (key, item ∷ []) ∷ []
  push_group key item ((name, items) ∷ groups) =
      if name == key
      then (name, items ++ item ∷ []) ∷ groups
      else (name, items) ∷ push_group key item groups

  -- A loop that puts the items that pass a test into the groups of their keys.
  unfoldable pub groups_by :
      (A → Bool) → (A → String) → List A → List (String × List A) → List (String × List A)
  unfolding push_group
  groups_by keep key_of [] groups = groups
  groups_by keep key_of (x ∷ xs) groups =
      groups_by keep key_of xs (if keep x then push_group (key_of x) x groups else groups)

  abbrev pub group : String → List (String × List A) → List A
  group key groups = or_else (lookup key groups) []

  group-push_group :
      (put key : String) (item : A) (groups : List (String × List A))
      → group key (push_group put item groups)
        ≡ (if put == key then group key groups ++ item ∷ [] else group key groups)
  unfolding push_group
  group-push_group put key item [] = ground arith
  group-push_group put key item ((name, items) ∷ groups) = ground (
    arith,
    group-push_group put key item groups,
    eq_iff name put,
    eq_iff name key,
    eq_iff put key,
  )

  -- A group holds the items of its key that pass the test, in the order in which they came.
  pub group-groups_by :
      (keep : A → Bool) (key_of : A → String) (key : String) (xs : List A)
      (groups : List (String × List A))
      → group key (groups_by keep key_of xs groups)
        ≡ group key groups ++ filter (λ x. keep x && key_of x == key) xs
  unfolding groups_by
  group-groups_by keep key_of key [] groups = sym (append-nil (group key groups))
  group-groups_by keep key_of key (x ∷ xs) groups = elim (Bool-cases (keep x)) [
    | inr other ↦ rw (other, group-groups_by keep key_of key xs groups) refl
    | inl kept ↦
        rw
          (
            kept,
            group-groups_by keep key_of key xs (push_group (key_of x) x groups),
            group-push_group (key_of x) key x groups,
          )
          (elim (Bool-cases (key_of x == key)) [
            | inl here ↦ rw here (
                append_assoc (group key groups) (x ∷ [])
                  (filter (λ x. keep x && key_of x == key) xs))
            | inr there ↦ rw there refl
          ])
  ]
