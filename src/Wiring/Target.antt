-- ===== src/Wiring/Target.antt =====
-- The pin that a draft snaps to (`moveDraft`), and the wire that it becomes (`commitDraft`).
use veristc.Prelude.{
  ℕ, ◌≤◌, ◌<◌, ◌≡◌, refl, Option, none, some, List, [], ◌∷◌, true, ◌&&◌, ltb, ◌⊎◌, inl, inr, All,
  In, Bool-cases, arith,
}
use veristc.Chart.Types.{PinPoint, Position, PinDirection}
use veristc.Chart.Pins.{connectable, other_side}
use veristc.Wiring.Draft.{DraftState, distance, hit_radius, nearest, move_draft}

-- `p` is the nearest of the pins that a wire from `from` may join, and nearer than `radius`.
pub record IsNearest (from : PinPoint) (at : Position) (pins : List PinPoint) (radius : ℕ)
    (p : PinPoint) : Type 0 where
  pub listed : In p pins
  pub joins : connectable from p ≡ true
  pub inside : distance p at < radius
  pub least : All (λ q. connectable from q ≡ true → distance p at ≤ distance q at) pins

-- No pin that a wire may join lies nearer than `radius`.
abbrev pub OutOfReach : PinPoint → Position → List PinPoint → ℕ → Type 0
OutOfReach from at pins radius = All (λ q. connectable from q ≡ true → radius ≤ distance q at) pins

nearest_lem :
    (from : PinPoint) (at : Position) (pins : List PinPoint) (radius : ℕ) (target : Option PinPoint)
    → ((nearest from at pins radius target ≡ target) × OutOfReach from at pins radius)
      ⊎ ((p : PinPoint) × (nearest from at pins radius target ≡ some p)
          × IsNearest from at pins radius p)
unfolding nearest
nearest_lem from at [] radius target = inl (refl, tt)
nearest_lem from at (q ∷ pins) radius target =
    elim (Bool-cases (connectable from q && ltb (distance q at) radius)) [
      | inl hit ↦ rw hit (elim (nearest_lem from at pins (distance q at) (some q)) [
        | inl (same, out) ↦ inr (
          q,
          same,
          record {
            listed = inl refl;
            joins = ground arith;
            inside = ground arith;
            least = (λ _. omega arith, out);
          },
        )
        | inr (p, found, best) ↦ inr (
          p,
          found,
          record {
            listed = inr best.listed;
            joins = best.joins;
            inside = ground (arith, best.inside);
            least = (λ _. omega (arith, best.inside), best.least);
          },
        )
      ])
      | inr miss ↦ rw miss (elim (nearest_lem from at pins radius target) [
        | inl (same, out) ↦ inl (same, (λ j. ground arith, out))
        | inr (p, found, best) ↦ inr (
          p,
          found,
          record {
            listed = inr best.listed;
            joins = best.joins;
            inside = best.inside;
            least = (λ j. ground (arith, best.inside), best.least);
          },
        )
      ])
    ]

-- A draft snaps to the nearest pin that it may be joined to, within the hit radius; and where it
-- has no target, no such pin is in reach.
pub move_draft-IsNearest :
    (pins : List PinPoint) (at : Position) (draft : DraftState)
    → (((move_draft pins at draft).target ≡ none) × OutOfReach draft.from at pins hit_radius)
      ⊎ ((p : PinPoint) × ((move_draft pins at draft).target ≡ some p)
          × IsNearest draft.from at pins hit_radius p)
unfolding move_draft
move_draft-IsNearest pins at draft = nearest_lem draft.from at pins hit_radius none

-- A wire that may be drawn runs from an output to an input, whichever end it was drawn from.
pub other_side-connectable :
    (a b : PinPoint)
    → connectable a b ≡ true
    → ((other_side a b).0.direction ≡ PinDirection.output)
      × ((other_side a b).1.direction ≡ PinDirection.input)
      × (((other_side a b ≡ (a, b)) ⊎ (other_side a b ≡ (b, a))))
unfolding connectable other_side
other_side-connectable a b h = ground arith
