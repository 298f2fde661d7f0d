-- ===== src/Tests/Resets.antt =====
-- Resets at concrete inputs: a vehicle that falls to its spawn pose and comes to rest.
use aero_safe_rl.Base.{
  ok, ◌-ℤ◌, ℕ, ◌+◌, ◌*◌, ◌≡◌, ◌≢◌, refl, [], ◌∷◌, none, some, Bool, true, false, ltb, pos, err,
  arith, if◌then◌else◌,
}
use aero_safe_rl.Bridge.{VehicleStatus, is_armed}
use aero_safe_rl.Episode.{soft}
use aero_safe_rl.Mission.{Vec3}
use aero_safe_rl.Reset.{
  near, slow, reset_unsafe, set_pose, reboot_px4, force_disarm, Reading, settled, soft_reset,
  medium_reset,
}
use aero_safe_rl.Reset.Ends.{medium_reset-ends}
use aero_safe_rl.Faults.{FaultSpec}
use aero_safe_rl.Farm.Child.{Request, Reports, Complete, worker_main}
use aero_safe_rl.Runner.{Summary, summary_of, run_episode, episode_runner}
use aero_safe_rl.Runner.Site.{Site, run_soft, with_resets}
use aero_safe_rl.Runner.Rested.{run_episode-Rested, site-Reports}
use aero_safe_rl.Tests.Episodes.{fault, result, ros, assignment}

abbrev spawn : Vec3
spawn = (pos 0, (pos 0, pos 0))

abbrev still : Vec3
still = (pos 0, (pos 0, pos 0))

abbrev status : Bool → VehicleStatus
status armed = record { armed = armed; offboard = false; pre_flight_checks_pass = true }

-- A reading a second, the vehicle 3 m up until the second one.
abbrev falling : ℕ → Reading
falling i = record {
  wall = 1000000 + i * 1000000;
  odometry = some (if ltb i 2 then (pos 0, (pos 0, pos 3000000)) else spawn, still);
  vehicle_status = some (status false);
}

abbrev armed : ℕ → Reading
armed i = record {
  wall = 1000000 + i * 1000000;
  odometry = some (spawn, still);
  vehicle_status = some (status (ltb i 1));
}

medium_reset-ends_example :
    (medium_reset spawn 27 true
      (armed 0)
      armed
      (falling 0)
      falling
      falling
      0
      500000
      900000
      900000).1
    ≢ none
medium_reset-ends_example =
    medium_reset-ends spawn 1000000 26 true (armed 0) armed (falling 0) falling falling 0 500000
      900000 900000 (λ i. omega arith) (λ i. omega arith) (λ i. omega arith) (omega arith)
      (omega arith) (omega arith) (omega arith) (omega arith) (omega arith)

-- The fall ends in time.
lands : (soft_reset spawn 5 true (falling 0) falling 500000).1 ≡ some (ok soft)
unfolding soft_reset near ◌-ℤ◌ slow
lands = refl

-- An armed vehicle is left alone.
refused : soft_reset spawn 5 true (armed 0) falling 500000 ≡ ([], some (err reset_unsafe))
unfolding soft_reset near ◌-ℤ◌ slow
refused = refl

-- The commands of a medium reset, in order.
commands :
    (medium_reset spawn 5 true (armed 0) armed (falling 0) falling falling 0 500000 900000 900000).0
    ≡ (force_disarm ∷ set_pose (pos 0, (pos 0, pos 0)) ∷ reboot_px4 ∷ [])
unfolding medium_reset near ◌-ℤ◌ slow
commands = refl

-- A world counts its episodes; its readings are the same in each.
abbrev site : Site ℕ
site = record {
  spawn = spawn;
  fuel = 27;
  now = λ w. falling 0;
  disarming = λ w. falling;
  disarmed = λ w. falling 0;
  settling = λ w. falling;
  readying = λ w. falling;
  t0 = λ w. 0;
  disarm_from = λ w. 500000;
  settle_from = λ w. 500000;
  ready_from = λ w. 900000;
  wall_duration_s = λ w. 2500000;
  teleports = λ w. true;
  stops = λ w. true;
  starts = λ w. true;
  execute = λ cs w. w;
  restart = λ w. w;
}

abbrev request : Request FaultSpec
request = record { episode_id = 5; reset_tier = soft; seed = 105; fault_spec = some fault }

abbrev flown : Summary
flown =
    summary_of (with_resets site ros) 2 true request (soft, 2500000)
      (record { result = result 0; echoes = [] })

flown_eq : run_episode (with_resets site ros) 2 true request 0 ≡ (1, ok flown)
unfolding run_episode run_soft soft_reset near ◌-ℤ◌ slow
flown_eq = refl

run_episode-Rested_example :
    (flown.episode.reset_tier ≡ soft)
    × ((is_armed (falling 0).vehicle_status ≡ false)
        × ((j : ℕ) × (settled spawn true (falling j) ≡ true)))
run_episode-Rested_example = run_episode-Rested site ros 2 true request 0 1 flown flown_eq

site-Reports_example :
    Reports
      (episode_runner (with_resets site ros) 2 true)
      assignment
      0
      none
      (worker_main (episode_runner (with_resets site ros) 2 true) assignment 0).0
    × Complete
        (episode_runner (with_resets site ros) 2 true)
        assignment
        3
        (worker_main (episode_runner (with_resets site ros) 2 true) assignment 0)
site-Reports_example = site-Reports site ros 2 true assignment 0 refl
