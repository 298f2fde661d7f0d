-- ===== src/Policy/Driver/Latch.antt =====
-- rl/policy_driver.py: what one row changes, and that a landing decision latches.
use mathlib.Core.Path.{subst}
use mathlib.Core.Bool.{false≢true}
use aero_safe_rl.Base.{
  ℕ, suc, ◌+◌, ◌≡◌, refl, sym, ap, ◌∙◌, ◌⊎◌, inl, inr, Bool-cases, List, [], ◌∷◌, Option, some,
  Bool, true, false, not, ◌&&◌, Result-cases, ok, arith,
}
use aero_safe_rl.Base.Methods.{◌>>=◌, ◌>>◌, bind-eq-ok}
use aero_safe_rl.Features.{Frame, TelemetryWindow}
use aero_safe_rl.Features
use aero_safe_rl.Policy.Action.{Action, clip, decision_period_s}
use aero_safe_rl.Policy.Input.{DetectorOutput, MissionProgress, PolicyInput}
use aero_safe_rl.Policy.Driver.Defs.{
  PolicyDriver, Note, Setup, M, append_row, detect, is_due, ask, consult, policy_input, select,
  annotate, step, run, Tick,
}

module _ {S D : Type 0} where
  -- What a row leaves alone when the policy is not asked.
  pub record Same (d d' : PolicyDriver S D) : Type 0 where
    pub policy_eq : d'.policy ≡ d.policy
    pub action_eq : d'.action ≡ d.action
    pub next_eq : d'.next_decision_t ≡ d.next_decision_t
    pub count_eq : d'.n_decisions ≡ d.n_decisions

  Same-trans : {d1 d2 d3 : PolicyDriver S D} → Same d1 d2 → Same d2 d3 → Same d1 d3
  Same-trans a b = record {
    policy_eq = b.policy_eq ∙ a.policy_eq;
    action_eq = b.action_eq ∙ a.action_eq;
    next_eq = b.next_eq ∙ a.next_eq;
    count_eq = b.count_eq ∙ a.count_eq;
  }

module _ {S D : Type 0} (u : Setup S D) where
  -- One decision at time `t`: the policy's answer, clipped, is in force from now on.
  pub record Asked (t : ℕ) (d d' : PolicyDriver S D) : Type 0 where
    pub input : PolicyInput
    pub raw : Action
    pub answer : u.policy.act d.policy input ≡ (d'.policy, ok raw)
    pub sees_action : input.previous_action ≡ some d.action
    pub clipped : clip u.spec raw ≡ ok d'.action
    pub next_eq : d'.next_decision_t ≡ some (t + decision_period_s u.spec)
    pub count_eq : d'.n_decisions ≡ suc d.n_decisions

  -- The condition under which `step` asks the policy.
  abbrev pub asks : Bool → ℕ → PolicyDriver S D → Bool
  asks decide t d = decide && (is_due u d.next_decision_t t && not d.action.land)

  asks_not_landing :
      (decide : Bool) (t : ℕ) (d : PolicyDriver S D)
      → d.action.land ≡ true
      → asks decide t d ≡ false
  asks_not_landing decide t d l = ground arith

  append_row-Same : (row : Frame) (d : PolicyDriver S D) → Same d (append_row u row d).0
  unfolding append_row
  append_row-Same row d = ground arith

  detect-Same : (row : Frame) (d : PolicyDriver S D) → Same d (detect u row d).0
  unfolding detect
  detect-Same row d = ground arith

  ask-Asked :
      (t : ℕ) (input : PolicyInput) (d d' : PolicyDriver S D)
      → input.previous_action ≡ some d.action
      → ask u t input d ≡ (d', ok tt)
      → Asked t d d'
  unfolding ask
  ask-Asked t input d d' p h = elim (Result-cases (u.policy.act d.policy input).1) [
    | inr (e, q) ↦ absurd (ground arith)
    | inl (raw, q) ↦ record {
      input = input;
      raw = raw;
      answer = ground arith;
      sees_action = p;
      clipped = ground arith;
      next_eq = ground arith;
      count_eq = ground arith;
    }
  ]

  consult_cases :
      (t : ℕ) (det : Option DetectorOutput) (pr : MissionProgress) (decide : Bool)
      (d d' : PolicyDriver S D)
      → consult u t det pr decide d ≡ (d', ok tt)
      → ((asks decide t d ≡ true) × Asked t d d') ⊎ ((asks decide t d ≡ false) × (d' ≡ d))
  unfolding consult
  consult_cases t det pr decide d d' h = elim (Bool-cases (asks decide t d)) [
    | inr idle ↦ inr (idle, ground arith)
    | inl due ↦ elim (Result-cases (Features.extract u.residual u.feature_names d.window)) [
      | inr (e, q) ↦ absurd (ground arith)
      | inl (feats, q) ↦ elim (Result-cases (select u.obs_names feats)) [
        | inr (e, q') ↦ absurd (ground arith)
        | inl (features, q') ↦
            inl
              (due, ask-Asked t (policy_input t features det pr d.action) d d' refl (ground arith))
      ]
    ]
  ]

  asks-of_Same :
      (decide : Bool) (t : ℕ) (d d' : PolicyDriver S D)
      → Same d d'
      → asks decide t d ≡ asks decide t d'
  asks-of_Same decide t d d' s = rw (s.next_eq, s.action_eq)

  Asked-of_Same : (t : ℕ) (d d1 d2 : PolicyDriver S D) → Same d d1 → Asked t d1 d2 → Asked t d d2
  Asked-of_Same t d d1 d2 s a = record {
    input = a.input;
    raw = a.raw;
    answer = rw (← s.policy_eq) a.answer;
    sees_action = rw (← s.action_eq) a.sees_action;
    clipped = a.clipped;
    next_eq = a.next_eq;
    count_eq = rw (← s.count_eq) a.count_eq;
  }

  annotate_keeps :
      (det : Option DetectorOutput) (d d' : PolicyDriver S D) (r : Note × Action)
      → annotate u det d ≡ (d', ok r)
      → d ≡ d'
  unfolding annotate
  annotate_keeps det d d' r h = ap (λ x. x.0) h

  annotate_action :
      (det : Option DetectorOutput) (d d' : PolicyDriver S D) (r : Note × Action)
      → annotate u det d ≡ (d', ok r)
      → (r.0.action ≡ d'.action) × (r.1 ≡ d'.action)
  unfolding annotate
  annotate_action det d d' r h = ground arith

  -- What a row is annotated with, and what its caller gets, is the action in force.
  pub step_action :
      (row : Frame) (pr : MissionProgress) (decide : Bool) (d d' : PolicyDriver S D)
      (r : Note × Action)
      → step u row pr decide d ≡ (d', ok r)
      → (r.0.action ≡ d'.action) × (r.1 ≡ d'.action)
  unfolding step
  step_action row pr decide d d' r h =
      let last : Option DetectorOutput → M S D (Note × Action) =
        λ det. consult u row.t_sim_s det pr decide >> annotate u det in
      let (_, d1, e1, h1) = bind-eq-ok (append_row u row) (λ _. detect u row >>= last) d h in
      let (det, d2, e2, h2) = bind-eq-ok (detect u row) last d1 h1 in
      let (_, d3, e3, h3) =
        bind-eq-ok (consult u row.t_sim_s det pr decide) (λ _. annotate u det) d2 h2 in
      annotate_action det d3 d' r h3

  -- One row that the driver accepts: it asks the policy once if the row decides, a decision is due
  -- and no landing is in force, and otherwise keeps the action, the schedule and the policy.
  pub step_cases :
      (row : Frame) (pr : MissionProgress) (decide : Bool) (d d' : PolicyDriver S D)
      (r : Note × Action)
      → step u row pr decide d ≡ (d', ok r)
      → ((asks decide row.t_sim_s d ≡ true) × Asked row.t_sim_s d d')
        ⊎ ((asks decide row.t_sim_s d ≡ false) × Same d d')
  unfolding step
  step_cases row pr decide d d' r h =
      let last : Option DetectorOutput → M S D (Note × Action) =
        λ det. consult u row.t_sim_s det pr decide >> annotate u det in
      let (_, d1, e1, h1) = bind-eq-ok (append_row u row) (λ _. detect u row >>= last) d h in
      let (det, d2, e2, h2) = bind-eq-ok (detect u row) last d1 h1 in
      let (_, d3, e3, h3) =
        bind-eq-ok (consult u row.t_sim_s det pr decide) (λ _. annotate u det) d2 h2 in
      let before : Same d d2 =
        Same-trans (subst (Same d) (ap (λ x. x.0) e1) (append_row-Same row d))
          (subst (Same d1) (ap (λ x. x.0) e2) (detect-Same row d1)) in
      let kept : d3 ≡ d' = annotate_keeps det d3 d' r h3 in
      elim (consult_cases row.t_sim_s det pr decide d2 d3 e3) [
        | inl (a, q) ↦ inl (
          asks-of_Same decide row.t_sim_s d d2 before ∙ a,
          subst (Asked row.t_sim_s d) kept (Asked-of_Same row.t_sim_s d d2 d3 before q),
        )
        | inr (a, q) ↦
            inr (
              asks-of_Same decide row.t_sim_s d d2 before ∙ a,
              subst (Same d) (sym q ∙ kept) before,
            )
      ]

module _ {S D : Type 0} (u : Setup S D) where
  -- Once a landing is in force, no later row of the episode asks the policy again or changes its
  -- state, and the same landing action stays in force.
  pub land_latches :
      (ks : List Tick) (d d' : PolicyDriver S D)
      → d.action.land ≡ true
      → run u ks d ≡ (d', ok tt)
      → Same d d'
  unfolding run
  land_latches [] d d' l h =
      let e : d ≡ d' = ap (λ x. x.0) h in
      subst (Same d) e
        (record { policy_eq = refl; action_eq = refl; next_eq = refl; count_eq = refl })
  land_latches (k ∷ ks) d d' l h =
      let (r, d1, e, h') = bind-eq-ok (step u k.row k.progress k.decide) (λ _. run u ks) d h in
      elim (step_cases u k.row k.progress k.decide d d1 r e) [
        | inl (a, q) ↦ absurd (false≢true (sym (asks_not_landing u k.decide k.row.t_sim_s d l) ∙ a))
        | inr (a, s) ↦ Same-trans s (land_latches ks d1 d' (rw s.action_eq l) h')
      ]

  -- Rows of the landing phase (`decide=False`) never ask the policy.
  pub not_deciding-Same :
      (row : Frame) (pr : MissionProgress) (d d' : PolicyDriver S D) (r : Note × Action)
      → step u row pr false d ≡ (d', ok r)
      → Same d d'
  not_deciding-Same row pr d d' r h = elim (step_cases u row pr false d d' r h) [
    | inl (a, q) ↦ absurd (false≢true a)
    | inr (a, s) ↦ s
  ]
