-- ===== src/Blocks/Pushing.antt =====
-- A push on the history of the block editor (components/library/BlockEditor.tsx).
use veristc.Prelude.{
  ℕ, suc, zero, ◌-◌, ◌≤◌, ◌<◌, ◌≡◌, refl, arith, Bool-cases, some, List, [], ◌∷◌, ◌++◌, length,
  take, drop, get_elem?, length-append, ltb, inl, inr, ap,
}
use veristc.Blocks.Types.{Snapshot}
use veristc.Blocks.History.{History, limit, trimmed, push_snapshot}

-- The index names a snapshot, and there are no more than the limit.
pub record IsHistory (h : History) : Type 0 where
  pub reached : (1 ≤ h.kept) × (h.kept ≤ length h.snapshots)
  pub bounded : length h.snapshots ≤ limit

module _ {A : Type 0} where
  pub length-take : (n : ℕ) (xs : List A) → n ≤ length xs → length (take n xs) ≡ n
  length-take zero xs h = refl
  length-take (suc n) [] h = omega arith
  length-take (suc n) (x ∷ xs) h = ap suc (length-take n xs (omega arith))

  length-drop_one : (xs : List A) → length (drop 1 xs) ≡ length xs - 1
  length-drop_one [] = refl
  length-drop_one (x ∷ xs) = omega arith

  get_elem?-drop_one : (xs : List A) (i : ℕ) → get_elem? (drop 1 xs) i ≡ get_elem? xs (suc i)
  get_elem?-drop_one [] i = refl
  get_elem?-drop_one (x ∷ xs) i = refl

  -- An item in front of the one that was put at the end of the first items.
  get_elem?-kept :
      (n i : ℕ) (xs : List A) (x : A)
      → i < n
      → n ≤ length xs
      → get_elem? (take n xs ++ x ∷ []) i ≡ get_elem? xs i
  get_elem?-kept zero i xs x h k = absurd (omega arith)
  get_elem?-kept (suc n) i [] x h k = absurd (omega arith)
  get_elem?-kept (suc n) zero (y ∷ xs) x h k = refl
  get_elem?-kept (suc n) (suc i) (y ∷ xs) x h k =
      get_elem?-kept n i xs x (omega arith) (omega arith)

  get_elem?-last :
      (n : ℕ) (xs : List A) (x : A) → n ≤ length xs → get_elem? (take n xs ++ x ∷ []) n ≡ some x
  get_elem?-last zero xs x k = refl
  get_elem?-last (suc n) [] x k = absurd (omega arith)
  get_elem?-last (suc n) (y ∷ xs) x k = get_elem?-last n xs x (omega arith)

pushed_length :
    (s : Snapshot) (h : History)
    → h.kept ≤ length h.snapshots
    → length (take h.kept h.snapshots ++ s ∷ []) ≡ suc h.kept
pushed_length s h k =
    omega
      (arith, length-append (take h.kept h.snapshots) (s ∷ []), length-take h.kept h.snapshots k)

-- A push: the new snapshot is the last, the index names it, and in front of it stands the one that
-- the index named.
pub record IsPush (s : Snapshot) (h p : History) : Type 0 where
  pub at_end : (p.kept ≡ length p.snapshots) × (2 ≤ p.kept) × (p.kept ≤ limit)
  pub last : get_elem? p.snapshots (p.kept - 1) ≡ some s
  pub before : get_elem? p.snapshots (p.kept - 1 - 1) ≡ get_elem? h.snapshots (h.kept - 1)

room_lem :
    (s : Snapshot) (h : History)
    → IsHistory h
    → length (take h.kept h.snapshots ++ s ∷ []) ≤ limit
    → IsPush s h (record {
      snapshots = take h.kept h.snapshots ++ s ∷ [];
      kept = length (take h.kept h.snapshots ++ s ∷ []);
    })
room_lem s h w e =
    let n : length (take h.kept h.snapshots ++ s ∷ []) ≡ suc h.kept =
      pushed_length s h w.reached.1 in
    let less : suc h.kept - 1 ≡ h.kept = omega arith in
    record {
      at_end = (refl, omega (arith, w.reached), e);
      last = rw (n, less) (get_elem?-last h.kept h.snapshots s w.reached.1);
      before =
          rw (n, less)
            (get_elem?-kept h.kept (h.kept - 1) h.snapshots s (omega (arith, w.reached))
              w.reached.1);
    }

full_lem :
    (s : Snapshot) (h : History)
    → IsHistory h
    → limit < length (take h.kept h.snapshots ++ s ∷ [])
    → IsPush s h (record { snapshots = drop 1 (take h.kept h.snapshots ++ s ∷ []); kept = h.kept })
full_lem s h w e =
    let n : length (take h.kept h.snapshots ++ s ∷ []) ≡ suc h.kept =
      pushed_length s h w.reached.1 in
    let below : suc (h.kept - 1) ≡ h.kept = omega (arith, w.reached) in
    let two : suc (h.kept - 1 - 1) ≡ h.kept - 1 = omega (arith, n, e) in
    record {
      at_end = (
        omega (arith, n, length-drop_one (take h.kept h.snapshots ++ s ∷ [])),
        omega (arith, n, e),
        omega (arith, w.reached, w.bounded),
      );
      last =
          rw (get_elem?-drop_one (take h.kept h.snapshots ++ s ∷ []) (h.kept - 1), below)
            (get_elem?-last h.kept h.snapshots s w.reached.1);
      before =
          rw (get_elem?-drop_one (take h.kept h.snapshots ++ s ∷ []) (h.kept - 1 - 1), two)
            (get_elem?-kept h.kept (h.kept - 1) h.snapshots s (omega (arith, w.reached))
              w.reached.1);
    }

pub push_snapshot-IsPush :
    (s : Snapshot) (h : History) → IsHistory h → IsPush s h (push_snapshot s h)
unfolding push_snapshot trimmed
push_snapshot-IsPush s h w =
    elim (Bool-cases (ltb limit (length (take h.kept h.snapshots ++ s ∷ [])))) [
      | inl e ↦ rw e (full_lem s h w (ground arith))
      | inr e ↦ rw e (room_lem s h w (ground arith))
    ]

pub push_snapshot-IsHistory :
    (s : Snapshot) (h : History) → IsHistory h → IsHistory (push_snapshot s h)
push_snapshot-IsHistory s h w =
    let p : IsPush s h (push_snapshot s h) = push_snapshot-IsPush s h w in
    record {
      reached = (omega (arith, p.at_end), omega (arith, p.at_end));
      bounded = omega (arith, p.at_end);
    }

-- A push that makes no snapshot leave.
pub push_room :
    (s : Snapshot) (h : History)
    → IsHistory h
    → h.kept < limit
    → (push_snapshot s h).snapshots ≡ take h.kept h.snapshots ++ s ∷ []
unfolding push_snapshot trimmed
push_room s h w b = elim (Bool-cases (ltb limit (length (take h.kept h.snapshots ++ s ∷ [])))) [
  | inl c ↦ absurd (ground (arith, pushed_length s h w.reached.1))
  | inr c ↦ rw c refl
]
