-- ===== src/Monitor/Wizard.antt =====
-- The steps of the download page (pages/DownloadPage.tsx).
use veristc.Prelude.{
  ℕ, suc, ◌-◌, ltb, if◌then◌else◌, Bool, true, false, ◌≤◌, arith, Bool-cases, inl, inr,
}

pub record Wizard : Type 0 where
  pub current_step : ℕ
  pub deploying : Bool

unfoldable pub handle_next : Wizard → Wizard
handle_next w = if ltb w.current_step 5 then record w { current_step = suc w.current_step } else w

unfoldable pub handle_prev : Wizard → Wizard
handle_prev w = if ltb 1 w.current_step then record w { current_step = w.current_step - 1 } else w

unfoldable pub handle_deploy : Wizard → Wizard
handle_deploy w = record w { deploying = true }

-- Two seconds later.
unfoldable pub deploy_timer : Wizard → Wizard
deploy_timer w = record w { deploying = false; current_step = 5 }

unfoldable pub reset_wizard : Wizard → Wizard
reset_wizard w = record w { current_step = 1 }

-- The wizard stays between its first and its last step.
pub wizard_bounds :
    (w : Wizard)
    → 1 ≤ w.current_step
    → w.current_step ≤ 5
    → ((1 ≤ (handle_next w).current_step) × ((handle_next w).current_step ≤ 5))
      × ((1 ≤ (handle_prev w).current_step) × ((handle_prev w).current_step ≤ 5))
      × ((1 ≤ (deploy_timer w).current_step) × ((deploy_timer w).current_step ≤ 5))
unfolding handle_next handle_prev deploy_timer
wizard_bounds w lo hi = (
  elim (Bool-cases (ltb w.current_step 5)) [
    | inl e ↦ rw e (omega arith, ground arith)
    | inr e ↦ rw e (lo, hi)
  ],
  elim (Bool-cases (ltb 1 w.current_step)) [
    | inl e ↦ rw e (ground arith, omega arith)
    | inr e ↦ rw e (lo, hi)
  ],
  (omega arith, omega arith),
)
