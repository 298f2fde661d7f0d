-- ===== src/Farm/Child.antt =====
-- experiments/sim_farm.py: _worker_main, the loop of one child process.
use mathlib.Core.Path.{subst}
use aero_safe_rl.Base.{
  ℕ, zero, suc, ◌+◌, ◌≤◌, ◌≡◌, refl, ap, ◌⊎◌, inl, inr, List, [], ◌∷◌, ◌==◌, get_elem?, length,
  Option, none, some, Result-cases, Result, ok, err, arith, if◌then◌else◌,
}
use aero_safe_rl.Episode.{
  EpisodeRecord, ResetTier, no_reset, hard, TerminationReason, next_reset_tier,
}

pub data ChildError : Type 0 where
  reset_error index_error runner_error : ChildError

-- The arguments of `run_episode` that differ from one episode to the next.
pub record Request (F : Type 0) : Type 0 where
  pub episode_id : ℕ
  pub seed : ℕ
  pub reset_tier : ResetTier
  pub fault_spec : Option F

-- EpisodeRunner: its state and its one method.
pub record Runner (R F : Type 0) : Type 0 where
  pub run_episode : Request F → R → R × Result ChildError EpisodeRecord

-- The child's arguments that the loop reads.
pub record Assignment (F : Type 0) : Type 0 where
  pub worker_id : ℕ
  pub n_episodes : ℕ
  pub start_index : ℕ
  pub seed_base : ℕ
  pub reset_tier : ResetTier
  pub fault_specs : Option (List F)

-- `fault_specs[local_index] if fault_specs is not None else None`
abbrev pub fault_at : {F : Type 0} → Option (List F) → ℕ → Result ChildError (Option F)
fault_at none i = ok none
fault_at (some fs) i = elim (get_elem? fs i) [
  | none ↦ err ChildError.index_error
  | some x ↦ ok (some x)
]

-- `"none" if i == 0 else next_reset_tier(reset_tier, last_termination_reason)`
abbrev pub effective_tier : ResetTier → ℕ → Option TerminationReason → ResetTier
effective_tier tier i last = if i == 0 then no_reset else next_reset_tier tier last

module _ {R F : Type 0} (runner : Runner R F) (a : Assignment F) where
  -- One episode, with the one hard retry after a ResetError.
  unfoldable pub fly_one : Request F → R → R × Result ChildError EpisodeRecord
  fly_one q s =
      let (s1, r) = runner.run_episode q s in
      elim r [
        | ok x ↦ (s1, ok x)
        | err e ↦ elim e [
          | reset_error ↦ runner.run_episode (record q { reset_tier = hard }) s1
          | index_error ↦ (s1, err ChildError.index_error)
          | runner_error ↦ (s1, err ChildError.runner_error)
        ]
      ]

  -- `for i in range(n_episodes)`, from `i` on: the records it puts, and how it ends.
  unfoldable pub fly :
      ℕ → ℕ → Option TerminationReason → R → List EpisodeRecord × Result ChildError (Unit {0})
  unfolding fly_one
  fly zero i last s = ([], ok tt)
  fly (suc n) i last s = elim (fault_at a.fault_specs (a.start_index + i)) [
    | err e ↦ ([], err e)
    | ok fault ↦
        let (s1, r) =
          fly_one
            (record {
              episode_id = a.start_index + i;
              seed = a.seed_base + (a.start_index + i);
              reset_tier = effective_tier a.reset_tier i last;
              fault_spec = fault;
            })
            s in
        elim r [
          | err e ↦ ([], err e)
          | ok summary ↦
              let (rest, end) = fly n (suc i) (some summary.termination_reason) s1 in
              (summary ∷ rest, end)
        ]
  ]

  unfoldable pub worker_main : R → List EpisodeRecord × Result ChildError (Unit {0})
  unfolding fly
  worker_main s = fly a.n_episodes 0 none s

  -- The runner's record names the worker and repeats what it was asked for.
  abbrev pub Honest : Type 0
  Honest =
      (q : Request F) (s s' : R) (x : EpisodeRecord)
      → runner.run_episode q s ≡ (s', ok x)
      → (x.worker_id ≡ a.worker_id)
        × (x.episode_id ≡ q.episode_id)
        × (x.seed ≡ q.seed)
        × (x.reset_tier ≡ q.reset_tier)

  -- The tier follows from how the episode before ended, or is the hard retry.
  abbrev pub TierFollows : ℕ → Option TerminationReason → EpisodeRecord → Type 0
  TierFollows i last x = (x.reset_tier ≡ effective_tier a.reset_tier i last) ⊎ (x.reset_tier ≡ hard)

  abbrev pub Reports : ℕ → Option TerminationReason → List EpisodeRecord → Type 0
  Reports i last [] = Unit
  Reports i last (x ∷ xs) =
      ((x.worker_id ≡ a.worker_id)
        × (x.episode_id ≡ a.start_index + i)
        × (x.seed ≡ a.seed_base + (a.start_index + i))
        × TierFollows i last x)
      × Reports (suc i) (some x.termination_reason) xs

  fly_one_lem :
      Honest
      → (q : Request F) (s s' : R) (x : EpisodeRecord) → fly_one q s ≡ (s', ok x)
      → (x.worker_id ≡ a.worker_id)
        × (x.episode_id ≡ q.episode_id)
        × (x.seed ≡ q.seed)
        × ((x.reset_tier ≡ q.reset_tier) ⊎ (x.reset_tier ≡ hard))
  unfolding fly_one
  fly_one_lem h q s s' x e =
      let s1 = (runner.run_episode q s).0 in
      elim (Result-cases (runner.run_episode q s).1) [
        | inl (y, p) ↦
            let (w, i, z, t) = h q s s1 y (ap (λ r. (s1, r)) p) in
            let same : y ≡ x = ground arith in
            subst
              (λ (v : EpisodeRecord).
                (v.worker_id ≡ a.worker_id)
                × (v.episode_id ≡ q.episode_id)
                × (v.seed ≡ q.seed)
                × ((v.reset_tier ≡ q.reset_tier) ⊎ (v.reset_tier ≡ hard)))
              same (w, i, z, inl t)
        | inr (reset_error, p) ↦
            let (w, i, z, t) = h (record q { reset_tier = hard }) s1 s' x (ground arith) in
            (w, i, z, inr t)
        | inr (index_error, p) ↦ absurd (ground arith)
        | inr (runner_error, p) ↦ absurd (ground arith)
      ]

  abbrev request : ℕ → Option TerminationReason → Option F → Request F
  request i last fault = record {
    episode_id = a.start_index + i;
    seed = a.seed_base + (a.start_index + i);
    reset_tier = effective_tier a.reset_tier i last;
    fault_spec = fault;
  }

  -- No more reports than episodes, and all of them when the loop ends without an error.
  abbrev pub Complete : ℕ → List EpisodeRecord × Result ChildError (Unit {0}) → Type 0
  Complete n r = (length r.0 ≤ n) × (r.1 ≡ ok tt → length r.0 ≡ n)

  fly-Reports :
      Honest
      → (n i : ℕ) (last : Option TerminationReason) (s : R)
      → Reports i last (fly n i last s).0 × Complete n (fly n i last s)
  unfolding fly
  fly-Reports h zero i last s = (tt, (omega arith, λ _. refl))
  fly-Reports h (suc n) i last s =
      elim (Result-cases (fault_at a.fault_specs (a.start_index + i))) [
        | inr (e, p) ↦ rw (p, fly) (tt, (omega arith, λ q. cc))
        | inl (fault, p) ↦
            let q = request i last fault in
            elim (Result-cases (fly_one q s).1) [
              | inr (e, p') ↦ rw (p, p', fly) (tt, (omega arith, λ z. cc))
              | inl (x, p') ↦
                  let s1 = (fly_one q s).0 in
                  let one_lem = fly_one_lem h q s s1 x (ap (λ r. (s1, r)) p') in
                  let (rest, (le, all)) = fly-Reports h n (suc i) (some x.termination_reason) s1 in
                  rw (p, p', fly) ((one_lem, rest), (omega arith, λ z. omega (arith, all z)))
            ]
      ]

  -- A child of an honest runner reports its episodes in order from its start index, without a gap,
  -- each under the seed of its index; its first one with no reset or after the hard retry, each
  -- later one with the run's tier after a completed episode and a hard reset after any other; at
  -- most its quota, and exactly its quota if nothing raised.
  pub worker_main-Reports :
      Honest → (s : R) → Reports 0 none (worker_main s).0 × Complete a.n_episodes (worker_main s)
  unfolding worker_main
  worker_main-Reports h s = fly-Reports h a.n_episodes 0 none s
