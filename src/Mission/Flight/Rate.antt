-- ===== src/Mission/Flight/Rate.antt =====
-- ros2_ws/src/aero_bridge/aero_bridge/mission_executor.py: how many step records a flight can have.
use mathlib.Core.Path.{subst}
use aero_safe_rl.Base.{
  ℕ, ◌+◌, ◌*◌, ◌≤◌, ◌≡◌, sym, ap, ◌∙◌, List, [], ◌∷◌, length, All, some, ok, arith,
}
use aero_safe_rl.Policy.Driver.{PolicyDriver}
use aero_safe_rl.Bridge.{Sent}
use aero_safe_rl.Mission.Flight.Defs.{Row, Plan, control_period_s}
use aero_safe_rl.Mission.Flight.Run.{Feed, MissionResult, fly_mission}
use aero_safe_rl.Mission.Flight.Books.{Spaced, Behind}
use aero_safe_rl.Mission.Flight.Completed.{fly_mission_lem}

Spaced-length :
    (rs : List Row) (from until : ℕ)
    → Spaced rs
    → All (λ r. from ≤ r.t_sim_s) rs
    → Behind rs until
    → from ≤ until
    → from + length rs * control_period_s ≤ until
Spaced-length [] from until s a b le = omega arith
Spaced-length (r ∷ rs) from until (s, _, ss) (h, a) b le =
    omega (arith, b, Spaced-length rs from r.t_sim_s ss a s h)

-- The step records of a flight are numbered from 0 in order, and each is at least a control period
-- of simulated time after the one before. So a flight whose records lie between two times has no
-- more of them than the time has control periods.
pub step_rate :
    {S D : Type 0} (c : Plan S D) (feed : Feed) (fuel : ℕ) (d : PolicyDriver S D) (s : List Sent)
    (r : MissionResult)
    → fly_mission c feed fuel d ≡ (s, some (ok r))
    → Spaced r.steps
      × ((from until : ℕ)
          → All (λ row. from ≤ row.t_sim_s) r.steps
          → Behind r.steps until
          → from ≤ until
          → from + r.n_steps * control_period_s ≤ until)
step_rate c feed fuel d s r h =
    let (f, x, e, k) = fly_mission_lem c feed fuel d s r h in
    let steps : r.steps ≡ f.steps = ap (λ y. y.steps) e in
    let count : r.n_steps ≡ length r.steps = ap (λ y. y.n_steps) e ∙ ap length (sym steps) in
    let spaced = subst Spaced (sym steps) k.spaced in
    (
      spaced,
      λ from until a b le.
          subst (λ n. from + n * control_period_s ≤ until) (sym count)
            (Spaced-length r.steps from until spaced a b le),
    )
