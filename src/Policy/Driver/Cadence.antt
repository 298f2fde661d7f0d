-- ===== src/Policy/Driver/Cadence.antt =====
-- rl/policy_driver.py: how often the policy decides, and the range of the action in force.
use mathlib.Core.Path.{subst}
use aero_safe_rl.Base.{
  ℕ, zero, suc, ◌+◌, ◌-◌, ◌*◌, ◌≤◌, ◌≡◌, refl, sym, ap, ◌∙◌, inl, inr, List, [], ◌∷◌, Option, none,
  some, Bool, true, leb, leb→le, All, ok, ok_injective, arith,
}
use aero_safe_rl.Base.Methods.{bind-eq-ok}
use aero_safe_rl.Policy.Action.{Action, clip, to_vector, nominal, decision_period_s}
use aero_safe_rl.Policy.Action.Decode.{IsValid, Within, decode_total, nominal_lem}
use aero_safe_rl.Policy.Driver.Defs.{
  PolicyDriver, Note, Setup, Tick, reset, step, run, is_due, decision_slack_s,
}
use aero_safe_rl.Policy.Driver.Latch.{asks, step_cases}

pace :
    (t0 period k next t : ℕ)
    → decision_slack_s ≤ period
    → t0 + period + k * (period - decision_slack_s) ≤ next
    → leb next (t + decision_slack_s) ≡ true
    → t0 + period + suc k * (period - decision_slack_s) ≤ t + period
pace t0 period k next t s h due = omega (arith, leb→le next (t + decision_slack_s) due)

pace_bound :
    (t0 t1 period k next : ℕ)
    → t0 + period + k * (period - decision_slack_s) ≤ next
    → next ≤ t1 + period
    → k * (period - decision_slack_s) ≤ t1 - t0
pace_bound t0 t1 period k next p q = omega arith

module _ {S D : Type 0} (u : Setup S D) where
  -- After `n` decisions since `t0` the next one is scheduled at least (n - 1) spacings after the
  -- first period, where a spacing is the decision period less the slack.
  abbrev Paced : ℕ → ℕ → Option ℕ → Type 0
  Paced t0 zero next = next ≡ none
  Paced t0 (suc k) none = ⊥
  Paced t0 (suc k) (some next) =
      t0 + decision_period_s u.spec + k * (decision_period_s u.spec - decision_slack_s) ≤ next

  -- Every scheduled decision lies at most one period after the last tick.
  abbrev Scheduled : ℕ → Option ℕ → Type 0
  Scheduled t1 none = Unit
  Scheduled t1 (some next) = next ≤ t1 + decision_period_s u.spec

  asks_due :
      (decide : Bool) (t : ℕ) (d : PolicyDriver S D)
      → asks u decide t d ≡ true
      → is_due u d.next_decision_t t ≡ true
  asks_due decide t d a = ground arith

  Paced-step :
      (t0 t n : ℕ) (next : Option ℕ)
      → decision_slack_s ≤ decision_period_s u.spec
      → t0 ≤ t
      → Paced t0 n next
      → is_due u next t ≡ true
      → Paced t0 (suc n) (some (t + decision_period_s u.spec))
  Paced-step t0 t zero next s le p due = omega arith
  Paced-step t0 t (suc k) none s le p due = absurd p
  Paced-step t0 t (suc k) (some next) s le p due =
      pace t0 (decision_period_s u.spec) k next t s p due

  -- A tick inside the interval from `t0` to `t1`.
  abbrev pub Inside : ℕ → ℕ → Tick → Type 0
  Inside t0 t1 k = (t0 ≤ k.row.t_sim_s) × (k.row.t_sim_s ≤ t1)

  abbrev Pace : ℕ → ℕ → PolicyDriver S D → Type 0
  Pace t0 t1 d = Paced t0 d.n_decisions d.next_decision_t × Scheduled t1 d.next_decision_t

  step-Pace :
      (t0 t1 : ℕ) (k : Tick) (d d' : PolicyDriver S D) (r : Note × Action)
      → decision_slack_s ≤ decision_period_s u.spec
      → Inside t0 t1 k
      → Pace t0 t1 d
      → step u k.row k.progress k.decide d ≡ (d', ok r)
      → Pace t0 t1 d'
  step-Pace t0 t1 k d d' r s (lo, hi) (p, q) h =
      elim (step_cases u k.row k.progress k.decide d d' r h) [
        | inr (a, same) ↦ rw (same.count_eq, same.next_eq) (p, q)
        | inl (a, asked) ↦
            rw (asked.count_eq, asked.next_eq)
              (
                Paced-step t0 k.row.t_sim_s d.n_decisions d.next_decision_t s lo p
                    (asks_due k.decide k.row.t_sim_s d a),
                omega arith,
              )
      ]

  run-Pace :
      (t0 t1 : ℕ) (ks : List Tick) (d d' : PolicyDriver S D)
      → decision_slack_s ≤ decision_period_s u.spec
      → All (Inside t0 t1) ks
      → Pace t0 t1 d
      → run u ks d ≡ (d', ok tt)
      → Pace t0 t1 d'
  unfolding run
  run-Pace t0 t1 [] d d' s all p h = subst (Pace t0 t1) (ap (λ x. x.0) h) p
  run-Pace t0 t1 (k ∷ ks) d d' s (i, all) p h =
      let (r, d1, e, h') = bind-eq-ok (step u k.row k.progress k.decide) (λ _. run u ks) d h in
      run-Pace t0 t1 ks d1 d' s all (step-Pace t0 t1 k d d1 r s i p e) h'

  pub reset_lem :
      (d d' : PolicyDriver S D)
      → reset u d ≡ (d', ok tt)
      → (d'.n_decisions ≡ 0)
        × (d'.next_decision_t ≡ none)
        × (nominal u.spec ≡ ok d'.action)
        × (d'.policy ≡ u.policy.reset d.policy)
  unfolding reset
  reset_lem d d' h = ground arith

  count_of_Pace :
      (t0 t1 n : ℕ) (next : Option ℕ)
      → Paced t0 n next
      → Scheduled t1 next
      → (n - 1) * (decision_period_s u.spec - decision_slack_s) ≤ t1 - t0
  count_of_Pace t0 t1 zero next p q = omega arith
  count_of_Pace t0 t1 (suc k) none p q = absurd p
  count_of_Pace t0 t1 (suc k) (some next) p q =
      let e : suc k - 1 ≡ k = omega arith in
      rw e (pace_bound t0 t1 (decision_period_s u.spec) k next p q)

  -- Where the decision period is at least the slack, an episode that starts with `reset` and whose
  -- rows all lie between t0 and t1 asks the policy at most once, and once more for each
  -- period-less-slack of the time between them.
  pub decision_rate :
      (t0 t1 : ℕ) (ks : List Tick) (d d1 d2 : PolicyDriver S D)
      → decision_slack_s ≤ decision_period_s u.spec
      → All (Inside t0 t1) ks
      → reset u d ≡ (d1, ok tt)
      → run u ks d1 ≡ (d2, ok tt)
      → (d2.n_decisions - 1) * (decision_period_s u.spec - decision_slack_s) ≤ t1 - t0
  decision_rate t0 t1 ks d d1 d2 s all e h =
      let (n, next, _, _) = reset_lem d d1 e in
      let start : Pace t0 t1 d1 = rw (n, next) (refl, tt) in
      let (p, q) = run-Pace t0 t1 ks d1 d2 s all start h in
      count_of_Pace t0 t1 d2.n_decisions d2.next_decision_t p q

  module _ (v : IsValid u.spec) where
    clip-Within : (a b : Action) → clip u.spec a ≡ ok b → Within v b
    unfolding clip
    clip-Within a b e = elim (decode_total u.spec v (to_vector a)) [
      | inl (n, (b', e', w)) ↦ subst (Within v) (ok_injective (sym e' ∙ e)) w
      | inr (n, e') ↦ absurd (n refl)
    ]

    run-Within :
        (ks : List Tick) (d d' : PolicyDriver S D)
        → Within v d.action
        → run u ks d ≡ (d', ok tt)
        → Within v d'.action
    unfolding run
    run-Within [] d d' w h = subst (λ (x : PolicyDriver S D). Within v x.action) (ap (λ x. x.0) h) w
    run-Within (k ∷ ks) d d' w h =
        let (r, d1, e, h') = bind-eq-ok (step u k.row k.progress k.decide) (λ _. run u ks) d h in
        run-Within ks d1 d'
          (elim (step_cases u k.row k.progress k.decide d d1 r e) [
            | inr (a, same) ↦ rw same.action_eq w
            | inl (a, asked) ↦ clip-Within asked.raw d1.action asked.clipped
          ])
          h'

    nominal-Within : (a : Action) → nominal u.spec ≡ ok a → Within v a
    unfolding nominal
    nominal-Within a e =
        subst (Within v) (ok_injective (sym (nominal_lem u.spec v) ∙ e))
          ((v.speed.low_le, v.speed.le_high), (v.offset.low_le, v.offset.le_high))

    -- Whatever finite numbers the policy answers, the action in force lies within a valid spec's bounds
    -- after every row of an episode that starts with `reset`.
    pub action_in_range :
        (ks : List Tick) (d d1 d2 : PolicyDriver S D)
        → reset u d ≡ (d1, ok tt)
        → run u ks d1 ≡ (d2, ok tt)
        → Within v d2.action
    action_in_range ks d d1 d2 e h =
        let (_, _, a, _) = reset_lem d d1 e in run-Within ks d1 d2 (nominal-Within d1.action a) h
