-- ===== src/Faults/Defs.antt =====
-- experiments/fault_schedule.py: fault labels, their time profile, validation and sampling.
-- Severities are in millionths and times in microseconds.
use Prim.Native.String.{String}
use text.Mathlib.Text.{◌==◌ as str_eq}
use aero_safe_rl.Base.{
  ℕ, zero, suc, ◌*◌, ◌/◌, List, [], ◌∷◌, Option, none, some, Bool, true, false, not, ◌&&◌, ◌||◌, ℤ,
  pos, negsuc, ◌+ℤ◌, ◌-ℤ◌, sub_ℕ, pos_part, leb_ℤ, ltb_ℤ, leb, any_of, all_of, get_elem?, length,
  Result, ok, err, guard, ◌>>=◌, ◌>>◌, if◌then◌else◌,
}
use aero_safe_rl.Policy.Action.{one}

pub data FaultError : Type 0 where
  fault_config_error mission_error value_error : FaultError

pub data FaultProfile : Type 0 where
  no_profile step ramp : FaultProfile

pub data FaultType : Type 0 where
  no_fault rotor_thrust_degradation : FaultType

pub record FaultSpec : Type 0 where
  pub episode_index : ℕ
  pub fault_applied : Bool
  pub fault_type : FaultType
  pub rotor_index : ℤ
  pub severity : ℤ
  pub onset_time_s : Option ℤ
  pub profile : FaultProfile
  pub ramp_duration_s : ℤ

abbrev pub healthy : ℕ → FaultSpec
healthy i = record {
  episode_index = i;
  fault_applied = false;
  fault_type = no_fault;
  rotor_index = negsuc 0;
  severity = pos 0;
  onset_time_s = none;
  profile = no_profile;
  ramp_duration_s = pos 0;
}

abbrev pub is_no_profile : FaultProfile → Bool
is_no_profile no_profile = true
is_no_profile _ = false

abbrev pub is_step : FaultProfile → Bool
is_step step = true
is_step _ = false

abbrev pub is_ramp : FaultProfile → Bool
is_ramp ramp = true
is_ramp _ = false

-- `severity * min(1.0, t / ramp)`, for 0 <= t and 0 < ramp, rounded to a millionth towards 0.
abbrev pub scaled : ℤ → ℕ → ℕ → ℤ
scaled (pos s) t r = if leb r t then pos s else pos (s * t / r)
scaled (negsuc s) t r = if leb r t then negsuc s else sub_ℕ 0 (suc s * t / r)

unfoldable pub commanded_severity : ℤ → FaultProfile → ℤ → ℤ → ℤ
commanded_severity severity profile ramp_duration_s t_since_onset_s =
    if is_no_profile profile || ltb_ℤ t_since_onset_s (pos 0)
    then pos 0
    else if is_step profile || leb_ℤ ramp_duration_s (pos 0)
    then severity
    else scaled severity (pos_part t_since_onset_s) (pos_part ramp_duration_s)

-- The dataset entry and the parsed file; a missing field is `none`.
pub record RawDataset : Type 0 where
  pub n_episodes : Option ℕ
  pub seed : Option ℕ
  pub healthy_fraction : Option ℤ

pub record RawFaultConfig : Type 0 where
  pub fault_schema_version : Option String
  pub fault_type : Option String
  pub mission_id : Option String
  pub dataset : Option RawDataset
  pub rotor_indices : Option (List ℤ)
  pub severity_range_s : Option (ℤ × ℤ)
  pub onset_time_range_s : Option (ℤ × ℤ)
  pub profiles : Option (List String)
  pub ramp_duration_range_s : Option (ℤ × ℤ)

-- The fields that the checks and the sampler read.
pub record FaultConfig : Type 0 where
  pub fault_type : String
  pub mission_id : String
  pub healthy_fraction : ℤ
  pub rotor_indices : List ℤ
  pub severity_range_s : ℤ × ℤ
  pub onset_time_range_s : ℤ × ℤ
  pub profiles : List String
  pub ramp_duration_range_s : ℤ × ℤ

-- The budget of a mission file.
pub record Mission : Type 0 where
  pub hold_time_s : ℤ
  pub final_hover_s : ℤ
  pub timeout_s : ℤ

abbrev present {ℓ} : {A : Type ℓ} → Option A → Result FaultError A
present none = err fault_config_error
present (some a) = ok a

-- The two checks for missing fields, and the values.
unfoldable pub read_fault_config : RawFaultConfig → Result FaultError FaultConfig
read_fault_config raw = do
  version ← present raw.fault_schema_version
  kind ← present raw.fault_type
  mission ← present raw.mission_id
  dataset ← present raw.dataset
  rotors ← present raw.rotor_indices
  severity ← present raw.severity_range_s
  onset ← present raw.onset_time_range_s
  profiles ← present raw.profiles
  ramps ← present raw.ramp_duration_range_s
  n ← present dataset.n_episodes
  seed ← present dataset.seed
  hf ← present dataset.healthy_fraction
  ok (record {
    fault_type = kind;
    mission_id = mission;
    healthy_fraction = hf;
    rotor_indices = rotors;
    severity_range_s = severity;
    onset_time_range_s = onset;
    profiles = profiles;
    ramp_duration_range_s = ramps;
  })

abbrev pub is_empty {ℓ} : {A : Type ℓ} → List A → Bool
is_empty [] = true
is_empty (x ∷ xs) = false

abbrev pub is_rotor : ℤ → Bool
is_rotor r = leb_ℤ (pos 0) r && leb_ℤ r (pos 3)

abbrev pub is_profile : String → Bool
is_profile p = str_eq p "step" || str_eq p "ramp"

-- `max_ramp` of the last check.
abbrev pub max_ramp : FaultConfig → ℤ
max_ramp c = if any_of (str_eq "ramp") c.profiles then c.ramp_duration_range_s.1 else pos 0

abbrev pub fits : FaultConfig → Mission → Bool
fits c m =
    leb_ℤ (c.onset_time_range_s.1 +ℤ max_ramp c) (m.timeout_s -ℤ (m.hold_time_s +ℤ m.final_hover_s))

unfoldable pub check_ranges : FaultConfig → Result FaultError (Unit {0})
check_ranges c = do
  guard (str_eq c.fault_type "rotor_thrust_degradation") fault_config_error
  guard (not (is_empty c.rotor_indices) && all_of is_rotor c.rotor_indices) fault_config_error
  guard (not (is_empty c.profiles) && all_of is_profile c.profiles) fault_config_error
  guard
      (leb_ℤ (pos 0) c.severity_range_s.0
        && (ltb_ℤ c.severity_range_s.0 c.severity_range_s.1
            && leb_ℤ c.severity_range_s.1 (pos one)))
      fault_config_error
  guard
      (leb_ℤ (pos 0) c.onset_time_range_s.0 && ltb_ℤ c.onset_time_range_s.0 c.onset_time_range_s.1)
      fault_config_error
  guard
      (ltb_ℤ (pos 0) c.ramp_duration_range_s.0
        && leb_ℤ c.ramp_duration_range_s.0 c.ramp_duration_range_s.1)
      fault_config_error
  guard (leb_ℤ (pos 0) c.healthy_fraction && ltb_ℤ c.healthy_fraction (pos one)) fault_config_error

-- `load_mission` reads and checks the file of a mission id.
unfoldable pub validate_fault_config :
    (String → Option Mission) → RawFaultConfig → Result FaultError FaultConfig
validate_fault_config load_mission raw = do
  c ← read_fault_config raw
  check_ranges c
  elim (load_mission c.mission_id) [
    | none ↦ err mission_error
    | some m ↦ do guard (fits c m) fault_config_error; ok c
  ]

-- numpy's Generator: its state, and a draw of each kind. `choice` picks a position.
pub record Rng (G : Type 0) : Type 0 where
  pub random : G → G × ℤ
  pub choice : ℕ → G → G × ℕ
  pub uniform : ℤ → ℤ → G → G × ℤ

abbrev pub profile_named : String → FaultProfile
profile_named p = if str_eq p "step" then step else if str_eq p "ramp" then ramp else no_profile

module _ {G : Type 0} (rng : Rng G) (c : FaultConfig) where
  -- `rng.choice(xs)`; ValueError on an empty list.
  abbrev pub pick {ℓ} : {A : Type ℓ} → List A → G → G × Result FaultError A
  pick xs g =
      let (g', i) = rng.choice (length xs) g in
      (g', elim (get_elem? xs i) [ none ↦ err value_error | some x ↦ ok x ])

  abbrev pub draw_ramp : FaultProfile → G → G × ℤ
  draw_ramp p g =
      if is_ramp p
      then rng.uniform c.ramp_duration_range_s.0 c.ramp_duration_range_s.1 g
      else (g, pos 0)

  -- One episode that draws a fault.
  unfoldable pub draw_fault : ℕ → G → G × Result FaultError FaultSpec
  draw_fault i g =
      let (g1, r) = pick c.rotor_indices g in
      elim r [
        | err e ↦ (g1, err e)
        | ok rotor ↦
            let (g2, sev) = rng.uniform c.severity_range_s.0 c.severity_range_s.1 g1 in
            let (g3, onset) = rng.uniform c.onset_time_range_s.0 c.onset_time_range_s.1 g2 in
            let (g4, q) = pick c.profiles g3 in
            elim q [
              | err e ↦ (g4, err e)
              | ok name ↦
                  let p = profile_named name in
                  let (g5, ramp_s) = draw_ramp p g4 in
                  (
                    g5,
                    ok (record {
                      episode_index = i;
                      fault_applied = true;
                      fault_type = rotor_thrust_degradation;
                      rotor_index = rotor;
                      severity = sev;
                      onset_time_s = some onset;
                      profile = p;
                      ramp_duration_s = ramp_s;
                    }),
                  )
            ]
      ]

  unfoldable pub draw : ℕ → G → G × Result FaultError FaultSpec
  unfolding draw_fault
  draw i g =
      let (g1, u) = rng.random g in
      if ltb_ℤ u c.healthy_fraction then (g1, ok (healthy i)) else draw_fault i g1

  -- `for i in range(n_episodes)`, from `i` on.
  unfoldable pub draw_from : ℕ → ℕ → G → Result FaultError (List FaultSpec)
  draw_from zero i g = ok []
  draw_from (suc n) i g =
      let (g1, r) = draw i g in
      let rest = draw_from n (suc i) g1 in do s ← r; later ← rest; ok (s ∷ later)

  unfoldable pub sample_fault_schedule : ℕ → G → Result FaultError (List FaultSpec)
  unfolding draw_from
  sample_fault_schedule n_episodes g = draw_from n_episodes 0 g
