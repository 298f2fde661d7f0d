-- ===== src/Runner/Site.antt =====
-- experiments/episode_runner.py and ros2_ws/src/aero_bridge/aero_bridge/reset.py: the runner with the
-- bridge's resets.
use aero_safe_rl.Base.{ℕ, ◌≡◌, List, Option, none, some, Bool, true, false, Result, ok, err}
use aero_safe_rl.Base.Methods.{Method}
use aero_safe_rl.Bridge.{is_armed}
use aero_safe_rl.Episode.{ResetTier, no_reset, soft, medium, hard}
use aero_safe_rl.Farm.Child.{ChildError, reset_error}
use aero_safe_rl.Mission.{Vec3}
use aero_safe_rl.Reset
use aero_safe_rl.Reset.{ResetCommand, Reading, Outcome, settled, ready}
use aero_safe_rl.Runner.Defs.{Ros, ResetResult}

-- What a reset finds in its world: the telemetry at the call and then at each pump of its loops, the
-- wall clock, whether Gazebo and the worker's scripts do what they are asked, and the worlds after
-- its commands. The loops run on fuel.
pub record Site (W : Type 0) : Type 0 where
  pub spawn : Vec3
  pub fuel : ℕ
  pub now : W → Reading
  pub disarming : W → ℕ → Reading
  pub disarmed : W → Reading
  pub settling : W → ℕ → Reading
  pub readying : W → ℕ → Reading
  pub t0 : W → ℕ
  pub disarm_from : W → ℕ
  pub settle_from : W → ℕ
  pub ready_from : W → ℕ
  pub wall_duration_s : W → ℕ
  pub teleports : W → Bool
  pub stops : W → Bool
  pub starts : W → Bool
  pub execute : List ResetCommand → W → W
  pub restart : W → W

-- A ResetError raises; the caller does not tell its subclasses apart. A loop is given the fuel
-- that it needs, so `none` does not come.
abbrev pub returned :
    {W : Type 0}
    → W
    → ℕ
    → Option (Result Reset.ResetError ResetTier)
    → W × Result ChildError ResetResult
returned w duration (some (ok tier)) = (w, ok (record { tier = tier; wall_duration_s = duration }))
returned w duration (some (err e)) = (w, err reset_error)
returned w duration none = (w, err reset_error)

module _ {W : Type 0} (site : Site W) where
  unfoldable pub run_soft : Method ChildError W ResetResult
  run_soft w =
      let (cs, r) =
        Reset.soft_reset site.spawn site.fuel (site.teleports w) (site.now w) (site.settling w)
          (site.settle_from w) in
      returned (site.execute cs w) (site.wall_duration_s w) r

  unfoldable pub run_medium : Method ChildError W ResetResult
  run_medium w =
      let (cs, r) =
        Reset.medium_reset site.spawn site.fuel (site.teleports w) (site.now w) (site.disarming w)
          (site.disarmed w) (site.settling w) (site.readying w) (site.t0 w) (site.disarm_from w)
          (site.settle_from w) (site.ready_from w) in
      returned (site.execute cs w) (site.wall_duration_s w) r

  unfoldable pub run_hard : Method ChildError W ResetResult
  run_hard w =
      returned (site.restart w) (site.wall_duration_s w)
        (some (Reset.hard_reset (site.stops w) (site.starts w)))

  -- The runner's world with the bridge's resets.
  abbrev pub with_resets : Ros W → Ros W
  with_resets ros = record ros {
    soft_reset = run_soft;
    medium_reset = run_medium;
    hard_reset = run_hard;
  }

  -- What a reset of a tier that returned has seen.
  abbrev pub Rested : ResetTier → W → Type 0
  Rested no_reset w = Unit
  Rested soft w =
      (is_armed (site.now w).vehicle_status ≡ false)
      × ((j : ℕ) × (settled site.spawn true (site.settling w j) ≡ true))
  Rested medium w =
      ((j : ℕ) × (settled site.spawn false (site.settling w j) ≡ true))
      × ((k : ℕ) × (ready site.spawn site.fuel (site.readying w k) ≡ true))
  Rested hard w = (site.stops w ≡ true) × (site.starts w ≡ true)
