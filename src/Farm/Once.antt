-- ===== src/Farm/Once.antt =====
-- experiments/sim_farm.py: each episode is recorded exactly once, whatever the children do.
use mathlib.Core.Path.{subst}
use aero_safe_rl.Base.{
  ℕ, suc, ◌+◌, ◌-◌, ◌≤◌, ◌<◌, ◌≡◌, refl, sym, ap, ◌∙◌, inl, inr, Bool, true, false, ◌&&◌, ◌||◌,
  List, [], ◌∷◌, ◌++◌, ◌==◌, leb, ltb, some, any_of, Bool-cases, Option-cases, ok, arith,
  if◌then◌else◌,
}
use aero_safe_rl.Base.Dict.{bump, level, level-bump}
use aero_safe_rl.Episode.{EpisodeRecord}
use aero_safe_rl.Farm.Manifest.{record_episode}
use aero_safe_rl.Farm.Defs.{Farm, key_of, same_key, bump_completed, take_in}
use aero_safe_rl.Farm.Levels.{Levels, Below, InTurn, advance}

-- How many of the records are of worker `w`'s episode `i`.
abbrev pub tally : List EpisodeRecord → ℕ → ℕ → ℕ
tally [] w i = 0
tally (r ∷ rs) w i =
    if (r.worker_id == w) && (r.episode_id == i) then suc (tally rs w i) else tally rs w i

-- One for the episodes from the base on that are counted as completed, none for the others.
abbrev pub expected : Levels → Levels → ℕ → ℕ → ℕ
expected base lev w i = if leb (base w) i && ltb i (lev w) then 1 else 0

tally_snoc :
    (rs : List EpisodeRecord) (r : EpisodeRecord) (w i : ℕ)
    → tally (rs ++ r ∷ []) w i ≡ tally rs w i + tally (r ∷ []) w i
tally_snoc [] r w i = omega arith
tally_snoc (x ∷ rs) r w i = ground (arith, tally_snoc rs r w i)

any_of_snoc :
    (ks : List (ℕ × ℕ)) (k j : ℕ × ℕ)
    → any_of (same_key j) (ks ++ k ∷ []) ≡ (any_of (same_key j) ks || same_key j k)
any_of_snoc [] k j = ground arith
any_of_snoc (x ∷ ks) k j = ground (arith, any_of_snoc ks k j)

abbrev pub completed_of : Farm → Levels
completed_of f = level f.completed_per_worker

module _ (base : Levels) (n : ℕ) where
  -- The results hold each counted episode once and nothing else, and the set of recorded ids says so.
  pub record Booked (f : Farm) : Type 0 where
    pub once : (w i : ℕ) → tally f.results w i ≡ expected base (completed_of f) w i
    pub recorded :
        (w i : ℕ) → any_of (same_key (w, i)) f.recorded_episode_ids ≡ ltb 0 (tally f.results w i)
    pub above : Below base (completed_of f)
    pub bounded : (w : ℕ) → completed_of f w - base w ≤ n - base w

  -- What taking one record in leaves.
  pub record TakenIn (r : EpisodeRecord) (f f' : Farm) : Type 0 where
    pub booked : Booked f'
    pub counted : Below (advance (completed_of f) r.worker_id r.episode_id) (completed_of f')
    pub queue_eq : f'.result_queue ≡ f.result_queue
    pub jobs_eq : f'.jobs ≡ f.jobs

  module _ (r : EpisodeRecord) (f : Farm) where
    abbrev recorded_before : Bool
    recorded_before = any_of (same_key (key_of r)) f.recorded_episode_ids

    abbrev with_result : Farm
    with_result =
        let m = record_episode r f.manifest in
        record f {
          recorded_episode_ids = f.recorded_episode_ids ++ key_of r ∷ [];
          results = f.results ++ r ∷ [];
          manifest = m;
          manifest_file = m;
        }

    take_in_old : recorded_before ≡ true → take_in r f ≡ (f, ok tt)
    unfolding take_in
    take_in_old e = ground arith

    take_in_new : recorded_before ≡ false → take_in r f ≡ bump_completed r.worker_id with_result
    unfolding take_in
    take_in_new e = ground arith

  bump_completed_lem :
      (w : ℕ) (f f' : Farm)
      → bump_completed w f ≡ (f', ok tt)
      → (d : List (ℕ × ℕ)) × (bump ◌==◌ w f.completed_per_worker ≡ some d)
        × (f' ≡ record f { completed_per_worker = d })
  unfolding bump_completed
  bump_completed_lem w f f' h = elim (Option-cases (bump ◌==◌ w f.completed_per_worker)) [
    | inl e ↦ absurd (ground arith)
    | inr (d, e) ↦ (d, e, ground arith)
  ]

  -- A new record of the next episode in turn.
  new_is_next :
      (r : EpisodeRecord) (f : Farm)
      → Booked f
      → InTurn base n (completed_of f) r.worker_id r.episode_id
      → recorded_before r f ≡ false
      → r.episode_id ≡ completed_of f r.worker_id
  new_is_next r f b (lo, up, end) e =
      ground (arith, b.once r.worker_id r.episode_id, b.recorded r.worker_id r.episode_id)

  old_is_counted :
      (r : EpisodeRecord) (f : Farm)
      → Booked f
      → recorded_before r f ≡ true
      → r.episode_id < completed_of f r.worker_id
  old_is_counted r f b e =
      ground (arith, b.once r.worker_id r.episode_id, b.recorded r.worker_id r.episode_id)

  take_in_next :
      (r : EpisodeRecord) (f : Farm) (d : List (ℕ × ℕ))
      → Booked f
      → InTurn base n (completed_of f) r.worker_id r.episode_id
      → r.episode_id ≡ completed_of f r.worker_id
      → bump ◌==◌ r.worker_id f.completed_per_worker ≡ some d
      → TakenIn r f (record (with_result r f) { completed_per_worker = d })
  take_in_next r f d b (lo, up, end) next e =
      let step : (v : ℕ)
          → level d v ≡ (
              if r.worker_id == v
              then suc (level f.completed_per_worker v)
              else level f.completed_per_worker v) =
        λ v. level-bump r.worker_id v f.completed_per_worker d e in
      record {
        booked = record {
          once = λ w i. ground (arith, b.once w i, tally_snoc f.results r w i, step w);
          recorded = λ w i. ground (
            arith,
            b.recorded w i,
            tally_snoc f.results r w i,
            any_of_snoc f.recorded_episode_ids (key_of r) (w, i),
          );
          above = λ v. ground (arith, b.above v, step v);
          bounded = λ v. ground (arith, b.bounded v, b.above v, step v);
        };
        counted = λ v. ground (arith, step v);
        queue_eq = refl;
        jobs_eq = refl;
      }

  pub take_in-TakenIn :
      (r : EpisodeRecord) (f f' : Farm)
      → Booked f
      → InTurn base n (completed_of f) r.worker_id r.episode_id
      → take_in r f ≡ (f', ok tt)
      → TakenIn r f f'
  take_in-TakenIn r f f' b t h = elim (Bool-cases (recorded_before r f)) [
    | inl e ↦ subst (TakenIn r f) (ap (λ x. x.0) (sym (take_in_old r f e) ∙ h)) (record {
      booked = b;
      counted = λ v. ground (arith, old_is_counted r f b e);
      queue_eq = refl;
      jobs_eq = refl;
    })
    | inr e ↦
        let (d, e', same) =
          bump_completed_lem r.worker_id (with_result r f) f' (sym (take_in_new r f e) ∙ h) in
        subst (TakenIn r f) (sym same) (take_in_next r f d b t (new_is_next r f b t e) e')
  ]
