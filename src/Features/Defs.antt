-- ===== src/Features/Defs.antt =====
-- ai/features/feature_extractor.py: TelemetryWindow, FeatureExtractor.extract and extract_series.
use Prim.Native.String.{String}
use text.Mathlib.Text.{◌==◌ as str_eq}
use aero_safe_rl.Base.{
  ℕ, List, [], ◌∷◌, ◌++◌, Option, none, some, Bool, false, not, Float, leb, ltb, length, is_some,
  all_of, any_of, Result, ok, err, guard, ◌>>=◌, ◌>>◌, if◌then◌else◌,
}

pub data FeatureError : Type 0 where
  value_error key_error : FeatureError

-- One telemetry row: its time, which every writer sets, and its other columns. A column that is not
-- there is `none`, and one that holds NaN is `some none`.
pub record Frame : Type 0 where
  pub t_sim_s : ℕ
  pub column : String → Option Float

-- RAW_FRAME_FIELDS without the time; also _PASSTHROUGH_FEATURES, which lists the same columns.
abbrev pub passthrough_features : List String
passthrough_features =
    "roll_rad" ∷ "pitch_rad" ∷ "yaw_rad" ∷ "rate_p_rad_s" ∷ "rate_q_rad_s" ∷ "rate_r_rad_s"
    ∷ "accel_x_m_s2" ∷ "accel_y_m_s2" ∷ "accel_z_m_s2" ∷ "vel_x" ∷ "vel_y" ∷ "vel_z"
    ∷ "position_error_m" ∷ "battery_remaining" ∷ "motor_0_output" ∷ "motor_1_output"
    ∷ "motor_2_output" ∷ "motor_3_output" ∷ []

unfoldable pub has_columns : List String → Frame → Bool
has_columns names f = all_of (λ n. is_some (f.column n)) names

pub record TelemetryWindow : Type 0 where
  pub capacity : ℕ
  pub frames : List Frame  -- oldest first

unfoldable pub new_window : ℕ → Result FeatureError TelemetryWindow
new_window cap = do guard (leb 1 cap) value_error; ok (record { capacity = cap; frames = [] })

abbrev pub last? {ℓ} : {A : Type ℓ} → List A → Option A
last? [] = none
last? (x ∷ []) = some x
last? (x ∷ y ∷ r) = last? (y ∷ r)

abbrev pub tail {ℓ} : {A : Type ℓ} → List A → List A
tail [] = []
tail (x ∷ r) = r

-- `deque(maxlen=cap).append`: a full deque drops its oldest entry.
unfoldable pub deque_append : ℕ → List Frame → Frame → List Frame
deque_append cap fs f = if leb cap (length fs) then tail fs ++ f ∷ [] else fs ++ f ∷ []

-- `self._frames and frame["t_sim_s"] < self._frames[-1]["t_sim_s"]`
abbrev pub runs_back : Option Frame → Frame → Bool
runs_back none f = false
runs_back (some l) f = ltb f.t_sim_s l.t_sim_s

unfoldable pub append : TelemetryWindow → Frame → Result FeatureError TelemetryWindow
unfolding deque_append
append w f = do
  guard (has_columns passthrough_features f) value_error
  guard (not (runs_back (last? w.frames) f)) value_error
  ok (record w { frames = deque_append w.capacity w.frames f })

abbrev pub derived_feature : String
derived_feature = "thrust_accel_residual"

abbrev column_of : Frame → String → Result FeatureError Float
column_of f name = elim (f.column name) [ none ↦ err key_error | some x ↦ ok x ]

module _ (residual : List Frame → Float) (feature_names : List String) where
  -- `values[name]`: the derived feature, or a pass-through column of the latest frame.
  unfoldable pub value_of : List Frame → Frame → String → Result FeatureError Float
  value_of frames latest name =
      if str_eq name derived_feature
      then ok (residual frames)
      else if any_of (str_eq name) passthrough_features
      then column_of latest name
      else err key_error

  unfoldable pub values_of :
      List Frame → Frame → List String → Result FeatureError (List (String × Float))
  values_of frames latest [] = ok []
  values_of frames latest (n ∷ ns) = do
    x ← value_of frames latest n
    xs ← values_of frames latest ns
    ok ((n, x) ∷ xs)

  unfoldable pub extract : TelemetryWindow → Result FeatureError (List (String × Float))
  extract w = elim (last? w.frames) [
    | none ↦ err value_error
    | some latest ↦ values_of w.frames latest feature_names
  ]

  -- The loop of `extract_series`.
  unfoldable pub series_from :
      TelemetryWindow → List Frame → Result FeatureError (List (List (String × Float)))
  series_from w [] = ok []
  series_from w (f ∷ fs) = do w' ← append w f; v ← extract w'; vs ← series_from w' fs; ok (v ∷ vs)

  unfoldable pub extract_series :
      ℕ → List Frame → Result FeatureError (List (List (String × Float)))
  unfolding series_from
  extract_series cap fs = do w ← new_window cap; series_from w fs
