-- ===== src/Policy/RuleBased/Defs.antt =====
-- rl/policies/rule_based.py: configuration, state and transition of the rule-based policy.
use aero_safe_rl.Base.{
  ℕ, Option, none, some, Bool, true, false, ◌&&◌, ℤ, pos, sub_ℕ, leb_ℤ, ltb_ℤ, Result, ok, guard,
  ◌>>◌, if◌then◌else◌, is_some, or_else, List, [], ◌∷◌,
}
use aero_safe_rl.Policy.Action.{one, PolicyError, value_error, Action, ActionSpec, nominal}
use aero_safe_rl.Policy.Input.{PolicyInput}

pub data FsmState : Type 0 where
  normal suspected recovering aborted : FsmState

pub record FsmConfig : Type 0 where
  pub suspect_p : ℤ
  pub clear_p : ℤ
  pub confirm_hold_s : ℤ
  pub clear_hold_s : ℤ
  pub suspected_speed_scale : ℤ
  pub suspected_altitude_offset_m : ℤ
  pub degraded_speed_scale : ℤ
  pub degraded_altitude_offset_m : ℤ
  pub land_severity : ℤ

-- `__post_init__`: a configuration is constructed or ValueError is raised.
unfoldable pub post_init : FsmConfig → Result PolicyError FsmConfig
post_init c = do
  guard (leb_ℤ (pos 0) c.clear_p && (ltb_ℤ c.clear_p c.suspect_p && leb_ℤ c.suspect_p (pos one)))
      value_error
  guard (ltb_ℤ (pos 0) c.confirm_hold_s && ltb_ℤ (pos 0) c.clear_hold_s) value_error
  ok c

pub record Fsm : Type 0 where
  pub state : FsmState
  pub high_since : Option ℕ  -- p >= suspect_p continuously since
  pub low_since : Option ℕ  -- p < clear_p continuously since
  pub confirmed_at_s : Option ℕ

unfoldable pub reset : Fsm
reset = record {
  state = FsmState.normal;
  high_since = none;
  low_since = none;
  confirmed_at_s = none;
}

abbrev pub is_state : FsmState → FsmState → Bool
is_state FsmState.normal FsmState.normal = true
is_state FsmState.suspected FsmState.suspected = true
is_state FsmState.recovering FsmState.recovering = true
is_state FsmState.aborted FsmState.aborted = true
is_state _ _ = false

-- `(since if since is not None else t) if held else None`
abbrev pub hold_since : Bool → Option ℕ → ℕ → Option ℕ
hold_since held since t = if held then some (or_else since t) else none

-- `since is not None and t - since >= hold`
abbrev pub held_for : Option ℕ → ℕ → ℤ → Bool
held_for none t hold = false
held_for (some s) t hold = leb_ℤ hold (sub_ℕ t s)

-- The two `_since` assignments.
unfoldable pub watch : FsmConfig → ℕ → ℤ → Fsm → Fsm
watch c t p m = record m {
  high_since = hold_since (leb_ℤ c.suspect_p p) m.high_since t;
  low_since = hold_since (ltb_ℤ p c.clear_p) m.low_since t;
}

-- `if self.state == NORMAL and ...`
unfoldable pub suspect : Fsm → Fsm
suspect m =
    if is_state m.state FsmState.normal && is_some m.high_since
    then record m { state = FsmState.suspected }
    else m

-- `if self.state == SUSPECTED:`
unfoldable pub resolve : FsmConfig → ℕ → ℤ → Fsm → Fsm
resolve c t sev m =
    if is_state m.state FsmState.suspected
    then (if held_for m.high_since t c.confirm_hold_s
        then record m {
          confirmed_at_s = some t;
          state = if leb_ℤ c.land_severity sev then FsmState.aborted else FsmState.recovering;
        }
        else if held_for m.low_since t c.clear_hold_s
        then record m { state = FsmState.normal }
        else m)
    else m

-- `if self.state == RECOVERING and ...`
unfoldable pub escalate : FsmConfig → ℤ → ℤ → Fsm → Fsm
escalate c p sev m =
    if is_state m.state FsmState.recovering && (leb_ℤ c.suspect_p p && leb_ℤ c.land_severity sev)
    then record m { state = FsmState.aborted }
    else m

-- The state that `act` leaves.
unfoldable pub observe : FsmConfig → ℕ → ℤ → ℤ → Fsm → Fsm
unfolding watch suspect resolve escalate
observe c t p sev m = escalate c p sev (resolve c t sev (suspect (watch c t p m)))

-- `_action`
unfoldable pub action_of : FsmConfig → ActionSpec → FsmState → Result PolicyError Action
action_of c spec FsmState.normal = nominal spec
action_of c spec FsmState.suspected = ok (record {
  speed_scale = c.suspected_speed_scale;
  altitude_offset_m = c.suspected_altitude_offset_m;
  land = false;
})
action_of c spec FsmState.recovering = ok (record {
  speed_scale = c.degraded_speed_scale;
  altitude_offset_m = c.degraded_altitude_offset_m;
  land = false;
})
action_of c spec FsmState.aborted =
    ok (record {
      speed_scale = pos 0;
      altitude_offset_m = c.degraded_altitude_offset_m;
      land = true;
    })

-- A method returns the object's new state and its result.
unfoldable pub act : FsmConfig → ActionSpec → Fsm → PolicyInput → Fsm × Result PolicyError Action
unfolding observe action_of
act c spec m obs =
    let m' = observe c obs.t_sim_s obs.detector.p_fault obs.detector.severity m in
    (m', action_of c spec m'.state)

-- What one decision reads of its input.
pub record Reading : Type 0 where
  pub t : ℕ
  pub p : ℤ
  pub sev : ℤ

-- The machine after a history of decisions, the latest first.
unfoldable pub after : FsmConfig → List Reading → Fsm
unfolding reset observe
after c [] = reset
after c (r ∷ rs) = observe c r.t r.p r.sev (after c rs)
