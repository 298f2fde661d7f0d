-- ===== src/Mission/Flight/Defs.antt =====
-- ros2_ws/src/aero_bridge/aero_bridge/mission_executor.py: the state of fly_mission and the functions
-- that it hands to the loops. Every float is an integer in millionths of its unit, so that a value
-- that is not finite is `none`.
use Prim.Native.String.{String}
use text.Mathlib.Text.{◌==◌ as str_eq}
use aero_safe_rl.Base.{
  ℕ, suc, ◌+◌, List, ◌∷◌, Option, none, some, is_some, Bool, true, false, ◌&&◌, ◌||◌, ℤ, Float, pos,
  leb_ℤ, ltb_ℤ, sub_ℕ, leb, ok, err, if◌then◌else◌,
}
use aero_safe_rl.Base.Methods.{Method, ◌>>=◌, ◌>>◌, pure, raise, modify}
use aero_safe_rl.Features.{Frame}
use aero_safe_rl.Policy.Action.{Action}
use aero_safe_rl.Policy.Outcome.{OutcomeSpec}
use aero_safe_rl.Policy.Driver.{PolicyDriver, Setup, Note}
use aero_safe_rl.Policy.Driver
use aero_safe_rl.Bridge.{FlightError, VehicleStatus}
use aero_safe_rl.Mission.Geometry.{Vec3, neg_ℤ, dist}
use aero_safe_rl.Mission.Tracker.{MissionConfig, MissionTracker, target, progress, update, done}

-- What a flight may raise: an error of the arming sequence, one of the three of this module,
-- `_Settled`, or anything else.
pub data FlightException : Type 0 where
  sequence : FlightError → FlightException
  mission_timeout sim_fault ground_contact settled unexpected : FlightException

pub record Odometry : Type 0 where
  pub position : Option ℤ × (Option ℤ × Option ℤ)
  pub velocity : Option ℤ × (Option ℤ × Option ℤ)

-- What one iteration of a loop can read: the wall clock, the sim clock and the latest messages.
-- The columns are those that no rule of the flight reads; a column that the row has not is `none`, and
-- one that holds NaN is `some none`.
pub record Watch : Type 0 where
  pub wall : ℕ
  pub now_us : Option ℕ
  pub vehicle_status : Option VehicleStatus
  pub vehicle_odometry : Option Odometry
  pub has_attitude : Bool
  pub has_sensors : Bool
  pub columns : String → Option Float

pub data Phase : Type 0 where
  mission landing : Phase

abbrev pub is_mission : Phase → Bool
is_mission mission = true
is_mission landing = false

-- A step record, with what the driver wrote onto it.
pub record Row : Type 0 where
  pub step_index : ℕ
  pub t_sim_s : ℕ
  pub position : Vec3
  pub velocity : Vec3
  pub target : Vec3
  pub position_error_m : ℕ
  pub flight_phase : Phase
  pub note : Note

-- `steps` and `errors` have the latest first.
pub record Flight (S D : Type 0) : Type 0 where
  pub driver : PolicyDriver S D
  pub tracker : Option MissionTracker
  pub steps : List Row
  pub errors : List ℕ
  pub step_index : ℕ
  pub t_sim_start_s : Option ℕ
  pub airborne : Bool
  pub contact_since : Option ℕ
  pub next_record_s : ℕ

-- 10 Hz, in microseconds.
abbrev pub control_period_s : ℕ
control_period_s = 100000

-- `_is_finite_state`, with the numbers.
abbrev pub finite3 : Option ℤ × (Option ℤ × Option ℤ) → Option Vec3
finite3 (some x, (some y, some z)) = some (x, (y, z))
finite3 _ = none

abbrev pub finite_state : Odometry → Option (Vec3 × Vec3)
finite_state o = elim (finite3 o.position) [
  | none ↦ none
  | some p ↦ elim (finite3 o.velocity) [ none ↦ none | some v ↦ some (p, v) ]
]

-- The telemetry of a tick, where all of it is there.
abbrev pub readings : Watch → Option (Odometry × ℕ)
readings w = elim w.vehicle_odometry [
  | none ↦ none
  | some o ↦ elim w.now_us [
    | none ↦ none
    | some t ↦
        if is_some w.vehicle_status && (w.has_attitude && w.has_sensors) then some (o, t) else none
  ]
]

-- The row as the driver sees it.
abbrev pub frame_of : Watch → ℕ → Vec3 → ℕ → Frame
frame_of w t v e = record {
  t_sim_s = t;
  column = λ n.
      if str_eq n "position_error_m"
      then some (some (pos e))
      else if str_eq n "vel_x"
      then some (some v.0)
      else if str_eq n "vel_y"
      then some (some v.1.0)
      else if str_eq n "vel_z"
      then some (some v.1.1)
      else w.columns n;
}

-- The fixed parts of a flight: the driver's, the outcome rule, the mission, and whether the caller's
-- callback returns. What it raises is none of a flight's own exceptions.
pub record Plan (S D : Type 0) : Type 0 where
  pub setup : Setup S D
  pub outcome : OutcomeSpec
  pub mission : MissionConfig
  pub on_step : Row → Bool

module _ {S D : Type 0} (c : Plan S D) where
  abbrev pub F : Type 0 → Type 0
  F A = Method FlightException (Flight S D) A

  unfoldable pub check_mission_deadline : Watch → F (Unit {0})
  check_mission_deadline w f = elim f.t_sim_start_s [
    | none ↦ (f, ok tt)
    | some start ↦ elim w.now_us [
      | none ↦ (f, ok tt)
      | some now ↦
          (f, if ltb_ℤ c.mission.timeout_s (sub_ℕ now start) then err mission_timeout else ok tt)
    ]
  ]

  abbrev pub note_error : Phase → ℕ → F (Unit {0})
  note_error mission e f = (record f { errors = e ∷ f.errors }, ok tt)
  note_error landing e f = (f, ok tt)

  -- `driver.step`, whose errors are no flight errors.
  unfoldable pub step_driver : Frame → MissionTracker → Vec3 → Phase → F (Note × Action)
  step_driver row tracker p phase f =
      let (d, r) =
        Driver.step c.setup row (progress row.t_sim_s p tracker) (is_mission phase) f.driver in
      (record f { driver = d }, elim r [ ok x ↦ ok x | err e ↦ err unexpected ])

  unfoldable pub advance_tracker : Phase → ℕ → Vec3 → Action → MissionTracker → F (Unit {0})
  advance_tracker landing t p a tracker f = (f, ok tt)
  advance_tracker mission t p a tracker f = elim (update t p a tracker) [
    | err e ↦ (f, err unexpected)
    | ok tracker' ↦ (record f { tracker = some tracker' }, ok tt)
  ]

  -- `steps.append(row)` and `on_step(row)`.
  unfoldable pub emit : Row → F (Option Row)
  emit row f = (
    record f { steps = row ∷ f.steps; step_index = suc f.step_index },
    if c.on_step row then ok (some row) else err unexpected,
  )

  unfoldable pub record_finite : Watch → Phase → MissionTracker → ℕ → Vec3 → Vec3 → F (Option Row)
  unfolding step_driver advance_tracker emit
  record_finite w phase tracker t p v f =
      let e = dist p (target tracker) in
      (do
        note_error phase e
        (note, action) ← step_driver (frame_of w t v e) tracker p phase
        advance_tracker phase t p action tracker
        emit (record {
          step_index = f.step_index;
          t_sim_s = t;
          position = p;
          velocity = v;
          target = target tracker;
          position_error_m = e;
          flight_phase = phase;
          note = note;
        }))
        f

  -- A tick without telemetry records nothing. There is a tracker before the first record.
  unfoldable pub record_step : Watch → Phase → F (Option Row)
  unfolding record_finite
  record_step w phase f = elim (readings w) [
    | none ↦ (f, ok none)
    | some r ↦ elim f.tracker [
      | none ↦ (f, err unexpected)
      | some tracker ↦ elim (finite_state r.0) [
        | none ↦ (f, err sim_fault)
        | some s ↦ record_finite w phase tracker r.1 s.0 s.1 f
      ]
    ]
  ]

  abbrev pub altitude : Row → ℤ
  altitude r = neg_ℤ r.position.1.1

  -- `ground_contact`, which also remembers that the vehicle was up.
  unfoldable pub touch_ground : Row → F Bool
  touch_ground r f =
      let up = f.airborne || leb_ℤ c.outcome.airborne_alt_m (altitude r) in
      (record f { airborne = up }, ok (up && ltb_ℤ (altitude r) c.outcome.ground_contact_alt_m))

  abbrev pub record_due : Watch → Flight S D → Bool
  record_due w f = elim w.now_us [ none ↦ false | some now ↦ leb f.next_record_s now ]

  abbrev pub set_next_record : ℕ → Flight S D → Flight S D
  set_next_record t f = record f { next_record_s = t + control_period_s }

  unfoldable pub judge_row : Option Row → F (Unit {0})
  unfolding touch_ground
  judge_row none f = (f, ok tt)
  judge_row (some r) f =
      (do
        modify (set_next_record r.t_sim_s)
        contact ← touch_ground r
        if contact then raise ground_contact else pure tt)
        f

  -- The mission is done, or the policy has committed to land.
  abbrev pub is_over : Flight S D → Bool
  is_over f = elim f.tracker [ none ↦ false | some t ↦ done t ] || f.driver.action.land

  -- Records a step once a control period of sim time has passed, and hands it on.
  abbrev pub when_due : Phase → (Option Row → F (Unit {0})) → Watch → F (Unit {0})
  when_due phase handle w f =
      if record_due w f then (record_step w phase >>= handle) f else (f, ok tt)

  abbrev pub tell_over : Unit {0} → F Bool
  tell_over _ f = (f, ok (is_over f))

  unfoldable pub mission_poll : Watch → F Bool
  unfolding check_mission_deadline record_step judge_row
  mission_poll w = do check_mission_deadline w; over ← when_due mission judge_row w; tell_over over

  -- A landing that has sat on the ground long enough ends.
  unfoldable pub settle : Option Row → F (Unit {0})
  settle none f = (f, ok tt)
  settle (some r) f =
      let g = set_next_record r.t_sim_s f in
      if ltb_ℤ (altitude r) c.outcome.ground_contact_alt_m
      then (
        record g { contact_since = some (elim f.contact_since [ none ↦ r.t_sim_s | some s ↦ s ]) },
        if leb_ℤ c.outcome.landed_settle_s
              (sub_ℕ r.t_sim_s (elim f.contact_since [ none ↦ r.t_sim_s | some s ↦ s ]))
            then err settled
            else ok tt,
      )
      else (record g { contact_since = none }, ok tt)

  unfoldable pub landing_poll : Watch → F (Unit {0})
  unfolding record_step settle
  landing_poll w = when_due landing settle w
