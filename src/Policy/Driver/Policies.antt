-- ===== src/Policy/Driver/Policies.antt =====
-- rl/policies/base_policy.py, rl/policies/rule_based.py and rl/policy_driver.py: the policy classes
-- behind the interface, and RecoveryConfig.build.
use Prim.Native.String.{String}
use text.Mathlib.Text.{◌==◌ as str_eq}
use mathlib.Core.Path.{subst}
use aero_safe_rl.Base.{
  ℕ, ◌≡◌, sym, ap, ◌∙◌, inl, inr, List, [], ◌∷◌, Option, none, some, ℤ, Result, ok, err, ◌>>=◌,
  arith, if◌then◌else◌,
}
use aero_safe_rl.Base.Methods.{bind-eq-ok}
use aero_safe_rl.Policy.Action.{PolicyError, value_error, Action, ActionSpec, decode, clip, nominal}
use aero_safe_rl.Policy.Action.Decode.{IsValid, Within, IsBinary, clip_of_Within, nominal_lem}
use aero_safe_rl.Policy.Input.{PolicyInput}
use aero_safe_rl.Policy.RuleBased.{FsmState, FsmConfig, Fsm, post_init}
use aero_safe_rl.Policy.RuleBased
use aero_safe_rl.Policy.Driver.Defs.{Policy, PolicyDriver, Setup, Tick, reset, run, step}
use aero_safe_rl.Policy.Driver.Cadence.{reset_lem}
use aero_safe_rl.Policy.Driver.Latch.{Asked, step_cases}

-- An object of each class. The learned policy's network maps an input to a raw vector.
pub data PolicyObject : Type 0 where
  nominal_policy : Action → PolicyObject
  constant_policy : Action → PolicyObject
  rule_based : FsmConfig → ActionSpec → Fsm → PolicyObject
  learned : (PolicyInput → Result PolicyError (List ℤ)) → ActionSpec → PolicyObject

abbrev pub fsm_name : FsmState → String
fsm_name FsmState.normal = "NORMAL"
fsm_name FsmState.suspected = "SUSPECTED"
fsm_name FsmState.recovering = "RECOVERING"
fsm_name FsmState.aborted = "ABORTED"

unfoldable pub object_reset : PolicyObject → PolicyObject
object_reset (rule_based c s m) = rule_based c s RuleBased.reset
object_reset (nominal_policy a) = nominal_policy a
object_reset (constant_policy a) = constant_policy a
object_reset (learned f s) = learned f s

unfoldable pub object_act : PolicyObject → PolicyInput → PolicyObject × Result PolicyError Action
object_act (nominal_policy a) obs = (nominal_policy a, ok a)
object_act (constant_policy a) obs = (constant_policy a, ok a)
object_act (rule_based c s m) obs = let (m', r) = RuleBased.act c s m obs in (rule_based c s m', r)
object_act (learned f s) obs = (learned f s, f obs >>= decode s)

unfoldable pub object_state_name : PolicyObject → String
object_state_name (rule_based c s m) = fsm_name m.state
object_state_name _ = ""

unfoldable pub policies : Policy PolicyObject
unfolding object_reset object_act object_state_name
policies = record { reset = object_reset; act = object_act; state_name = object_state_name }

pub record RecoveryConfig : Type 0 where
  pub policy : String
  pub policy_config : Option String
  pub constant_action : Option (List ℤ)

abbrev needs {ℓ} : {A : Type ℓ} → Option A → Result PolicyError A
needs none = err value_error
needs (some a) = ok a

-- The policy that `build` makes. `read_fsm` and `read_network` read the file that a path names.
module _ (read_fsm : String → Result PolicyError FsmConfig)
    (read_network : String → Result PolicyError (PolicyInput → Result PolicyError (List ℤ))) where
  unfoldable pub build : ActionSpec → RecoveryConfig → Result PolicyError PolicyObject
  build spec c =
      if str_eq c.policy "nominal"
      then (do a ← nominal spec; ok (nominal_policy a))
      else if str_eq c.policy "rule_based"
      then (do
        path ← needs c.policy_config
        raw ← read_fsm path
        config ← post_init raw
        ok (rule_based config spec RuleBased.reset))
      else if str_eq c.policy "constant"
      then (do v ← needs c.constant_action; a ← decode spec v; ok (constant_policy a))
      else if str_eq c.policy "learned"
      then (do path ← needs c.policy_config; f ← read_network path; ok (learned f spec))
      else err value_error

ok_lem : {a b : Action} → ◌≡◌ {A = Result PolicyError Action} (ok a) (ok b) → a ≡ b
ok_lem e = cc

module _ {D : Type 0} (u : Setup PolicyObject D) (v : IsValid u.spec) (a : Action) where
  -- The driver flies the nominal policy, and its nominal action is in force.
  abbrev IsNominal : PolicyDriver PolicyObject D → Type 0
  IsNominal d = (d.policy ≡ nominal_policy a) × (d.action ≡ a)

  nominal-clip : IsBinary v → nominal u.spec ≡ ok a → clip u.spec a ≡ ok a
  nominal-clip b e = clip_of_Within u.spec v a b (
      subst (Within v) (ok_lem (sym (nominal_lem u.spec v) ∙ e))
        ((v.speed.low_le, v.speed.le_high), (v.offset.low_le, v.offset.le_high)))

  Asked-IsNominal :
      (t : ℕ) (d d' : PolicyDriver PolicyObject D)
      → u.policy ≡ policies
      → clip u.spec a ≡ ok a
      → IsNominal d
      → Asked u t d d'
      → IsNominal d'
  unfolding object_act policies
  Asked-IsNominal t d d' p c (e, f) q =
      let answer : object_act (nominal_policy a) q.input ≡ (d'.policy, ok q.raw) =
        rw (p, e) at q.answer in
      let same : a ≡ q.raw = ground arith in
      (
        ground arith,
        ok_lem (sym (subst (λ r. clip u.spec r ≡ ok d'.action) (sym same) q.clipped) ∙ c),
      )

  run-IsNominal :
      (ks : List Tick) (d d' : PolicyDriver PolicyObject D)
      → u.policy ≡ policies
      → clip u.spec a ≡ ok a
      → IsNominal d
      → run u ks d ≡ (d', ok tt)
      → IsNominal d'
  unfolding run
  run-IsNominal [] d d' p c n h = subst IsNominal (ap (λ x. x.0) h) n
  run-IsNominal (k ∷ ks) d d' p c n h =
      let (r, d1, e, h') = bind-eq-ok (step u k.row k.progress k.decide) (λ _. run u ks) d h in
      run-IsNominal ks d1 d' p c
        (elim (step_cases u k.row k.progress k.decide d d1 r e) [
          | inl (_, q) ↦ Asked-IsNominal k.row.t_sim_s d d1 p c n q
          | inr (_, s) ↦ (s.policy_eq ∙ n.0, s.action_eq ∙ n.1)
        ])
        h'

  reset-IsNominal :
      (d d1 : PolicyDriver PolicyObject D)
      → u.policy ≡ policies
      → nominal u.spec ≡ ok a
      → d.policy ≡ nominal_policy a
      → reset u d ≡ (d1, ok tt)
      → IsNominal d1
  unfolding object_reset policies
  reset-IsNominal d d1 p e q h =
      let (_, _, n, r) = reset_lem u d d1 h in
      let r' : d1.policy ≡ object_reset (nominal_policy a) = rw (p, q) at r in
      (r', ok_lem (sym n ∙ e))

  -- Where the spec is valid and its land dimension tells 0.0 and 1.0 apart, the spec's nominal action
  -- is in force under NominalPolicy after every row of an episode that starts with `reset`.
  pub nominal_flight :
      (ks : List Tick) (d d1 d2 : PolicyDriver PolicyObject D)
      → IsBinary v
      → u.policy ≡ policies
      → nominal u.spec ≡ ok a
      → d.policy ≡ nominal_policy a
      → reset u d ≡ (d1, ok tt)
      → run u ks d1 ≡ (d2, ok tt)
      → d2.action ≡ a
  nominal_flight ks d d1 d2 b p e q h k =
      (run-IsNominal ks d1 d2 p (nominal-clip b e) (reset-IsNominal d d1 p e q h) k).1
