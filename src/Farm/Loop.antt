-- ===== src/Farm/Loop.antt =====
-- experiments/sim_farm.py: SimFarm.run as a whole, and how it ends.
use aero_safe_rl.Base.{
  ℕ, zero, suc, ◌+◌, ◌≤◌, ◌≡◌, refl, ◌∙◌, Bool, true, false, List, [], ◌∷◌, ltb, length, Option,
  none, some, Result, ok, err, arith, if◌then◌else◌,
}
use aero_safe_rl.Base.Methods.{◌>>=◌, pure}
use aero_safe_rl.Episode.{EpisodeRecord}
use aero_safe_rl.Farm.Supervisor.{Scripts}
use aero_safe_rl.Farm.Defs.{Farm, FarmError, FarmConfig, Call, take_in, drain_from, drain_queue}
use aero_safe_rl.Farm.Run.{
  with_worker, spawn_remaining, each, all_over, finish, round, revive, check_health,
}
use aero_safe_rl.Farm.Reach.{drain_cons}

-- What the farm cannot see from inside: the monotonic clock at each round, and what the children
-- and the machine do to it while `run` sleeps after that round.
module _ (c : FarmConfig) (scripts : Scripts) (clock : ℕ → ℕ) (sleep : ℕ → Farm → Farm) where
  -- `while True`, from round `i` on; `none` is out of fuel.
  unfoldable pub rounds : ℕ → ℕ → ℕ → Farm → Farm × Option (Result FarmError (Unit {0}))
  rounds deadline zero i f = (f, none)
  rounds deadline (suc n) i f =
      let (f', r) = round c scripts deadline (clock i) f in
      let rest = rounds deadline n (suc i) (sleep i f') in
      elim r [ err e ↦ (f', some (err e)) | ok b ↦ if b then (f', some (ok tt)) else rest ]

  -- The first spawns, then the loop. The results are the farm's own list.
  unfoldable pub run : ℕ → Farm → Farm × Option (Result FarmError (Unit {0}))
  unfolding rounds
  run fuel f =
      let (f', r) =
        each c scripts (length f.supervisors) 0 (λ k. with_worker k (spawn_remaining c k)) f in
      elim r [ err e ↦ (f', some (err e)) | ok _ ↦ rounds (clock 0 + c.max_wall_s) fuel 0 f' ]

drained :
    (rs : List EpisodeRecord) (f g : Farm)
    → f.result_queue ≡ rs
    → drain_from rs f ≡ (g, ok tt)
    → g.result_queue ≡ []
unfolding drain_from take_in
drained [] f g e h = ground arith
drained (r ∷ rs) f g e h =
    let (u, t, h') = drain_cons r rs f g h in drained rs u g (ground arith) h'

module _ (c : FarmConfig) (scripts : Scripts) (deadline now : ℕ) where
  second_drain : (f g : Farm) → drain_queue f ≡ (g, ok tt) → drain_queue g ≡ (g, ok tt)
  unfolding drain_queue drain_from
  second_drain f g h = rw (drained f.result_queue f g refl h) refl

  -- The rest of a round after its first drain.
  abbrev after_drain : Call Bool
  after_drain f =
      if all_over c scripts f
      then (drain_queue >>= λ _ g. (finish c scripts now g, ok true)) f
      else if ltb deadline now
      then (f, err FarmError.watchdog)
      else (each c scripts (length f.supervisors) 0 (revive c scripts) >>= λ _.
            each c scripts (length f.supervisors) 0 (check_health c scripts) >>= λ _. pure false)
          f

  round_drained :
      (f g : Farm) → drain_queue f ≡ (g, ok tt) → round c scripts deadline now f ≡ after_drain g
  unfolding round
  round_drained f g h = ground arith

  -- A round that finds no live child ends the run without an error, whatever the children had still
  -- to fly: it only takes in what is in the queue and writes the end time.
  pub dead_children_end_run :
      (f g : Farm)
      → drain_queue f ≡ (g, ok tt)
      → all_over c scripts g ≡ true
      → round c scripts deadline now f ≡ (finish c scripts now g, ok true)
  dead_children_end_run f g h e =
      let again = second_drain f g h in round_drained f g h ∙ ground arith

module _ (c : FarmConfig) (scripts : Scripts) (clock : ℕ → ℕ) (sleep : ℕ → Farm → Farm) where
  -- The clock advances by at least the poll interval from one round to the next.
  abbrev pub Ticks : Type 0
  Ticks = (i : ℕ) → clock i + c.health_poll_interval_s ≤ clock (suc i)
