-- ===== src/Policy/Driver/Defs.antt =====
-- rl/policy_driver.py and rl/policies/base_policy.py: BasePolicy as an interface, and PolicyDriver.
use Prim.Native.String.{String}
use text.Mathlib.Text.{◌==◌ as str_eq}
use aero_safe_rl.Base.{
  ℕ, suc, ◌+◌, List, [], ◌∷◌, Option, none, some, Bool, true, false, not, ◌&&◌, Float, pos, leb,
  any_of, all_of, is_some, or_else, Result, ok, err, if◌then◌else◌, ◌==◌,
}
use aero_safe_rl.Base.Methods.{Method, ◌>>=◌, ◌>>◌}
use aero_safe_rl.Features.{FeatureError, Frame, TelemetryWindow}
use aero_safe_rl.Features
use aero_safe_rl.Policy.Action.{PolicyError, Action, ActionSpec, clip, nominal, decision_period_s}
use aero_safe_rl.Policy.Input.{DetectorOutput, MissionProgress, PolicyInput}

-- BasePolicy: the methods of an object whose state is an S.
pub record Policy (S : Type 0) : Type 0 where
  pub reset : S → S
  pub act : S → PolicyInput → S × Result PolicyError Action
  pub state_name : S → String

-- The detector's two methods, over a state D.
pub record Detector (D : Type 0) : Type 0 where
  pub reset : D → D
  pub step : D → Frame → D × Result PolicyError DetectorOutput

-- Half a 10 Hz tick, in microseconds.
abbrev pub decision_slack_s : ℕ
decision_slack_s = 50000

abbrev pub no_detection : DetectorOutput
no_detection = record {
  p_fault = pos 0;
  rotor = pos 0;
  severity = pos 0;
  uncertainty = pos 0;
  alarm = false;
}

pub record PolicyDriver (S D : Type 0) : Type 0 where
  pub policy : S
  pub detector : Option D
  pub window : TelemetryWindow
  pub action : Action
  pub next_decision_t : Option ℕ
  pub n_decisions : ℕ

-- What `step` writes onto its row; `none` is NO_DETECTOR_FIELDS.
pub record Note : Type 0 where
  pub det : Option DetectorOutput
  pub policy_state : String
  pub action : Action

abbrev pub of_feature_error : FeatureError → PolicyError
of_feature_error FeatureError.value_error = PolicyError.value_error
of_feature_error FeatureError.key_error = PolicyError.key_error

-- `{n: feats[n] for n in self._obs_names}`
abbrev pub find : List (String × Float) → String → Option Float
find [] n = none
find ((k, x) ∷ r) n = if str_eq k n then some x else find r n

abbrev pub select : List String → List (String × Float) → Result PolicyError (String → Option Float)
select names feats =
    if all_of (λ n. is_some (find feats n)) names
    then ok (λ n. if any_of (str_eq n) names then find feats n else none)
    else err PolicyError.key_error

abbrev pub M : Type 0 → Type 0 → Type 0 → Type 0
M S D A = Method PolicyError (PolicyDriver S D) A

abbrev pub policy_input :
    ℕ → (String → Option Float) → Option DetectorOutput → MissionProgress → Action → PolicyInput
policy_input t features det progress action = record {
  t_sim_s = t;
  features = features;
  detector = or_else det no_detection;
  mission = progress;
  previous_action = some action;
}

-- The driver's fixed parts: the policy's and detector's methods, the action spec, the observation's
-- feature names, and the feature extractor's names and derived feature.
pub record Setup (S D : Type 0) : Type 0 where
  pub policy : Policy S
  pub detector : Detector D
  pub spec : ActionSpec
  pub obs_names : List String
  pub feature_names : List String
  pub residual : List Frame → Float
  pub capacity : ℕ

module _ {S D : Type 0} (u : Setup S D) where
  -- `reset`, which raises if the spec's nominal vector or the window's capacity is bad.
  unfoldable pub reset : M S D (Unit {0})
  reset d =
      let d' = record d {
        policy = u.policy.reset d.policy;
        detector = elim d.detector [ none ↦ none | some x ↦ some (u.detector.reset x) ];
      } in
      elim (Features.new_window u.capacity) [
        | err e ↦ (d', err (of_feature_error e))
        | ok w ↦ elim (nominal u.spec) [
          | err e ↦ (record d' { window = w }, err e)
          | ok a ↦
              (record d' { window = w; action = a; next_decision_t = none; n_decisions = 0 }, ok tt)
        ]
      ]

  -- `self._window.append(row)`
  unfoldable pub append_row : Frame → M S D (Unit {0})
  append_row row d = elim (Features.append d.window row) [
    | ok w ↦ (record d { window = w }, ok tt)
    | err e ↦ (d, err (of_feature_error e))
  ]

  -- Runs the detector, if there is one.
  unfoldable pub detect : Frame → M S D (Option DetectorOutput)
  detect row d = elim d.detector [
    | none ↦ (d, ok none)
    | some x ↦
        let (x', r) = u.detector.step x row in
        (record d { detector = some x' }, elim r [ ok o ↦ ok (some o) | err e ↦ err e ])
  ]

  abbrev pub is_due : Option ℕ → ℕ → Bool
  is_due none t = true
  is_due (some next) t = leb next (t + decision_slack_s)

  -- Asks the policy, clips its action into range and schedules the next decision.
  unfoldable pub ask : ℕ → PolicyInput → M S D (Unit {0})
  ask t obs d =
      let (s', r) = u.policy.act d.policy obs in
      let d' = record d { policy = s' } in
      elim r [
        | err e ↦ (d', err e)
        | ok raw ↦ elim (clip u.spec raw) [
          | err e ↦ (d', err e)
          | ok a ↦
              if u.spec.decision_rate_hz == 0
              then (record d' { action = a }, err PolicyError.zero_division)
              else (
                record d' {
                  action = a;
                  next_decision_t = some (t + decision_period_s u.spec);
                  n_decisions = suc d.n_decisions;
                },
                ok tt,
              )
        ]
      ]

  -- `if decide and due and not self._action.land:`
  unfoldable pub consult : ℕ → Option DetectorOutput → MissionProgress → Bool → M S D (Unit {0})
  consult t det progress decide d =
      if decide && (is_due d.next_decision_t t && not d.action.land)
      then elim (Features.extract u.residual u.feature_names d.window) [
        | err e ↦ (d, err (of_feature_error e))
        | ok feats ↦ elim (select u.obs_names feats) [
          | err e ↦ (d, err e)
          | ok features ↦ ask t (policy_input t features det progress d.action) d
        ]
      ]
      else (d, ok tt)

  unfoldable pub annotate : Option DetectorOutput → M S D (Note × Action)
  annotate det d = (
    d,
    ok (
      record { det = det; policy_state = u.policy.state_name d.policy; action = d.action },
      d.action,
    ),
  )

  unfoldable pub step : Frame → MissionProgress → Bool → M S D (Note × Action)
  unfolding append_row detect consult ask annotate
  step row progress decide = do
    append_row row
    det ← detect row
    consult row.t_sim_s det progress decide
    annotate det

-- One call of `step` in an episode.
pub record Tick : Type 0 where
  pub row : Frame
  pub progress : MissionProgress
  pub decide : Bool

module _ {S D : Type 0} (u : Setup S D) where
  -- An episode's calls in order; the first that raises ends it.
  unfoldable pub run : List Tick → M S D (Unit {0})
  run [] d = (d, ok tt)
  run (k ∷ ks) d = (step u k.row k.progress k.decide >>= λ _. run ks) d
