-- ===== src/Tests/Flights.antt =====
-- The arming, hold and landing loops at concrete inputs.
use aero_safe_rl.Base.{ℕ, ◌+◌, ◌*◌, Option, some, true, false, pos, negsuc, ltb, arith}
use aero_safe_rl.Bridge.{
  VehicleStatus, arm_and_engage_offboard, hold_position_until, land_and_wait, warmup_s,
  resend_interval_s,
}
use aero_safe_rl.Bridge.Ends.{EndsAt, arm_outcome, land_outcome, arm-EndsAt, land-EndsAt}
use aero_safe_rl.Bridge.Cadence.{Spaced, is_mode, is_land, mode-Spaced}

-- An iteration takes 0.1 s; PX4 is armed and in offboard mode from the twelfth on.
abbrev clock : ℕ → ℕ
clock i = i * 100000

abbrev status : ℕ → Option VehicleStatus
status i = some (record { armed = ltb 10 i; offboard = ltb 11 i; pre_flight_checks_pass = true })

arm-EndsAt_example :
    EndsAt
      (arm_outcome clock status (0 + 30000000))
      0
      (arm_and_engage_offboard clock status 0 (negsuc 4999999) 30000000 302).1
arm-EndsAt_example =
    arm-EndsAt clock status 100000 0 30000000 301 (λ i. omega arith) (omega arith) (omega arith)
      (negsuc 4999999)

land-EndsAt_example :
    EndsAt
      (land_outcome clock status (λ i. false) (0 + 30000000))
      0
      (land_and_wait clock status (λ i. false) 0 30000000 302).1
land-EndsAt_example =
    land-EndsAt clock status 100000 0 30000000 301 (λ i. omega arith) (omega arith) (omega arith)
      (λ i. false)

mode-Spaced_example :
    Spaced is_mode resend_interval_s
      (0 + warmup_s)
      (arm_and_engage_offboard clock status 0 (negsuc 4999999) 30000000 20).0
    × Spaced is_mode resend_interval_s 0
        (hold_position_until clock status
          (λ i. (pos i, (pos 0, pos 0)))
          (λ i. ltb 15 i)
          0
          30000000
          20).0
    × Spaced is_land resend_interval_s 0 (land_and_wait clock status (λ i. false) 0 30000000 20).0
mode-Spaced_example =
    mode-Spaced clock status 0 30000000 20 (negsuc 4999999) (λ i. (pos i, (pos 0, pos 0)))
      (λ i. ltb 15 i) (λ i. false)
