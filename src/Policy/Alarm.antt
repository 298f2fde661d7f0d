-- ===== src/Policy/Alarm.antt =====
-- ai/detector/runtime.py and experiments/metrics.py: the detector's alarm, online and offline.
use Prim.Native.String.{String}
use aero_safe_rl.Base.{
  ℕ, zero, suc, ◌≡◌, refl, sym, inl, inr, List, [], ◌∷◌, Option, none, some, Bool, true, false, leb,
  Float, ℤ, leb_ℤ, map, Result-cases, Result, ok, err, ◌>>=◌, >>=-eq-ok, arith, if◌then◌else◌,
}
use aero_safe_rl.Features.{FeatureError, Frame, TelemetryWindow}
use aero_safe_rl.Features
use aero_safe_rl.Policy.Action.{PolicyError}
use aero_safe_rl.Policy.Input.{DetectorOutput}
use aero_safe_rl.Policy.Driver.{Detector, of_feature_error}

-- What the ensemble returns for one vector.
pub record Estimate : Type 0 where
  pub p_fault : ℤ
  pub rotor : ℤ
  pub severity : ℤ
  pub uncertainty : ℤ

pub record DetectorRuntime (H : Type 0) : Type 0 where
  pub window : TelemetryWindow
  pub hidden : Option H
  pub run : ℕ

-- The fixed parts: the network, which maps a vector and a hidden state, and the alarm's parameters.
pub record Ensemble (H : Type 0) : Type 0 where
  pub infer : List Float → Option H → Estimate × H
  pub threshold : ℤ
  pub hold_ticks : ℕ
  pub residual : List Frame → Float
  pub feature_names : List String
  pub capacity : ℕ

module _ {H : Type 0} (e : Ensemble H) where
  -- `hidden` and `run` are cleared with the window, whose capacity is a positive constant.
  unfoldable pub reset : DetectorRuntime H → DetectorRuntime H
  reset d = record {
    window = record { capacity = e.capacity; frames = [] };
    hidden = none;
    run = 0;
  }

  -- `self._run + 1 if p >= self.threshold else 0`
  abbrev pub next_run : ℕ → ℤ → ℕ
  next_run run p = if leb_ℤ e.threshold p then suc run else 0

  unfoldable pub step :
      DetectorRuntime H → Frame → DetectorRuntime H × Result PolicyError DetectorOutput
  step d frame = elim (Features.append d.window frame) [
    | err x ↦ (d, err (of_feature_error x))
    | ok w ↦ elim (Features.extract e.residual e.feature_names w) [
      | err x ↦ (record d { window = w }, err (of_feature_error x))
      | ok v ↦
          let (out, h) = e.infer (map (λ x. x.1) v) d.hidden in
          let run = next_run d.run out.p_fault in
          (
            record { window = w; hidden = some h; run = run },
            ok (record {
              p_fault = out.p_fault;
              rotor = out.rotor;
              severity = out.severity;
              uncertainty = out.uncertainty;
              alarm = leb e.hold_ticks run;
            }),
          )
    ]
  ]

  abbrev pub detector : Detector (DetectorRuntime H)
  detector = record { reset = reset; step = step }

  -- An episode's frames in order.
  unfoldable pub detect_all :
      DetectorRuntime H → List Frame → Result PolicyError (List DetectorOutput)
  detect_all d [] = ok []
  detect_all d (f ∷ fs) = do o ← (step d f).1; os ← detect_all (step d f).0 fs; ok (o ∷ os)

-- The loop of `sustained`, from a count on, and the comparison with the hold.
unfoldable pub sustained_from : ℕ → ℕ → List Bool → List Bool
sustained_from hold count [] = []
sustained_from hold count (m ∷ ms) =
    let count' = if m then suc count else 0 in leb hold count' ∷ sustained_from hold count' ms

unfoldable pub sustained : ℕ → List Bool → List Bool
unfolding sustained_from
sustained hold mask = sustained_from hold 0 mask

-- The last `n` entries of a history are true; the latest comes first.
abbrev pub last_true : ℕ → List Bool → Bool
last_true zero h = true
last_true (suc n) (true ∷ h) = last_true n h
last_true (suc n) _ = false

-- One entry for each tick, from the mask up to that tick alone.
abbrev pub alarms_after : ℕ → List Bool → List Bool → List Bool
alarms_after hold past [] = []
alarms_after hold past (m ∷ ms) = last_true hold (m ∷ past) ∷ alarms_after hold (m ∷ past) ms

abbrev leading : List Bool → ℕ
leading [] = 0
leading (true ∷ h) = suc (leading h)
leading (false ∷ h) = 0

leb-leading : (n : ℕ) (h : List Bool) → leb n (leading h) ≡ last_true n h
leb-leading zero h = ground arith
leb-leading (suc n) [] = ground arith
leb-leading (suc n) (true ∷ h) = ground (arith, leb-leading n h)
leb-leading (suc n) (false ∷ h) = ground arith

sustained_from_lem :
    (hold : ℕ) (past mask : List Bool)
    → sustained_from hold (leading past) mask ≡ alarms_after hold past mask
unfolding sustained_from
sustained_from_lem hold past [] = refl
sustained_from_lem hold past (true ∷ ms) =
    rw (leb-leading hold (true ∷ past), sustained_from_lem hold (true ∷ past) ms) refl
sustained_from_lem hold past (false ∷ ms) =
    rw (leb-leading hold (false ∷ past), sustained_from_lem hold (false ∷ past) ms) refl

module _ {H : Type 0} (e : Ensemble H) where
  abbrev pub likely : DetectorOutput → Bool
  likely o = leb_ℤ e.threshold o.p_fault

  step_alarm :
      (d : DetectorRuntime H) (f : Frame) (o : DetectorOutput)
      → (step e d f).1 ≡ ok o
      → ((step e d f).0.run ≡ next_run e d.run o.p_fault)
        × (o.alarm ≡ leb e.hold_ticks (next_run e d.run o.p_fault))
  unfolding step
  step_alarm d f o h = elim (Result-cases (Features.append d.window f)) [
    | inr (x, q) ↦ absurd (ground arith)
    | inl (w, q) ↦ elim (Result-cases (Features.extract e.residual e.feature_names w)) [
      | inr (x, q') ↦ absurd (ground arith)
      | inl (v, q') ↦ ground arith
    ]
  ]

  detect_all_lem :
      (d : DetectorRuntime H) (fs : List Frame) (os : List DetectorOutput)
      → detect_all e d fs ≡ ok os
      → map (λ (o : DetectorOutput). o.alarm) os ≡ sustained_from e.hold_ticks d.run (map likely os)
  unfolding detect_all sustained_from
  detect_all_lem d [] [] h = refl
  detect_all_lem d [] (o ∷ os) h = cc
  detect_all_lem d (f ∷ fs) os' h =
      let d' = (step e d f).0 in
      let (o, q, h1) = >>=-eq-ok (step e d f).1 _ h in
      let (os, q', h2) = >>=-eq-ok (detect_all e d' fs) (λ os. ok (o ∷ os)) h1 in
      let (run_eq, alarm_eq) = step_alarm d f o q in
      let same : (o ∷ os) ≡ os' = ground arith in
      rw (sym same, alarm_eq, detect_all_lem d' fs os q', run_eq) refl

  -- Over the frames of an episode, the detector's alarm at each tick is what the offline metric
  -- computes from the recorded probabilities, and both are on exactly where the last `hold_ticks`
  -- probabilities reached the threshold.
  pub alarms_agree :
      (d : DetectorRuntime H) (fs : List Frame) (os : List DetectorOutput)
      → detect_all e (reset e d) fs ≡ ok os
      → (map (λ (o : DetectorOutput). o.alarm) os ≡ sustained e.hold_ticks (map likely os))
        × (sustained e.hold_ticks (map likely os) ≡ alarms_after e.hold_ticks [] (map likely os))
  unfolding reset sustained
  alarms_agree d fs os h =
      (detect_all_lem (reset e d) fs os h, sustained_from_lem e.hold_ticks [] (map likely os))
