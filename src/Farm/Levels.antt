-- ===== src/Farm/Levels.antt =====
-- experiments/sim_farm.py: the order in which records reach the farm's queue.
use aero_safe_rl.Base.{ℕ, suc, ◌≤◌, ◌<◌, List, [], ◌∷◌, ◌++◌, ◌==◌, leb, arith, if◌then◌else◌}
use aero_safe_rl.Episode.{EpisodeRecord}

-- How far each worker's episodes are counted.
abbrev pub Levels : Type 0
Levels = ℕ → ℕ

abbrev pub Below : Levels → Levels → Type 0
Below a b = (v : ℕ) → a v ≤ b v

-- The levels once episode `i` of worker `w` is counted.
abbrev pub advance : Levels → ℕ → ℕ → Levels
advance lev w i v = if v == w then (if leb (suc i) (lev v) then lev v else suc i) else lev v

abbrev pub after_queue : Levels → List EpisodeRecord → Levels
after_queue lev [] = lev
after_queue lev (r ∷ q) = after_queue (advance lev r.worker_id r.episode_id) q

module _ (base : Levels) (n : ℕ) where
  -- A record that comes no earlier than its worker's base, and skips no episode.
  abbrev pub InTurn : Levels → ℕ → ℕ → Type 0
  InTurn lev w i = (base w ≤ i) × (i ≤ lev w) × (i < n)

  -- Every record of the queue is in turn when it reaches the front.
  abbrev pub Ready : Levels → List EpisodeRecord → Type 0
  Ready lev [] = Unit
  Ready lev (r ∷ q) =
      InTurn lev r.worker_id r.episode_id × Ready (advance lev r.worker_id r.episode_id) q

pub advance_mono : (a b : Levels) (w i : ℕ) → Below a b → Below (advance a w i) (advance b w i)
advance_mono a b w i le v = ground (arith, le v)

pub after_queue_mono :
    (a b : Levels) (q : List EpisodeRecord) → Below a b → Below (after_queue a q) (after_queue b q)
after_queue_mono a b [] le = le
after_queue_mono a b (r ∷ q) le =
    after_queue_mono (advance a r.worker_id r.episode_id) (advance b r.worker_id r.episode_id) q
      (advance_mono a b r.worker_id r.episode_id le)

pub after_queue_ge : (a : Levels) (q : List EpisodeRecord) → Below a (after_queue a q)
after_queue_ge a [] v = omega arith
after_queue_ge a (r ∷ q) v = ground (arith, after_queue_ge (advance a r.worker_id r.episode_id) q v)

pub after_queue_snoc :
    (a : Levels) (q : List EpisodeRecord) (r : EpisodeRecord)
    → Below (advance (after_queue a q) r.worker_id r.episode_id) (after_queue a (q ++ r ∷ []))
after_queue_snoc a [] r v = omega arith
after_queue_snoc a (x ∷ q) r v = after_queue_snoc (advance a x.worker_id x.episode_id) q r v

module _ (base : Levels) (n : ℕ) where
  pub Ready-mono :
      (a b : Levels) (q : List EpisodeRecord) → Below a b → Ready base n a q → Ready base n b q
  Ready-mono a b [] le k = tt
  Ready-mono a b (r ∷ q) le ((lo, up, end), k) = (
    (lo, omega (arith, le r.worker_id), end),
    Ready-mono (advance a r.worker_id r.episode_id) (advance b r.worker_id r.episode_id) q
        (advance_mono a b r.worker_id r.episode_id le) k,
  )

  pub Ready-snoc :
      (a : Levels) (q : List EpisodeRecord) (r : EpisodeRecord)
      → Ready base n a q
      → InTurn base n (after_queue a q) r.worker_id r.episode_id
      → Ready base n a (q ++ r ∷ [])
  Ready-snoc a [] r k t = (t, tt)
  Ready-snoc a (x ∷ q) r (i, k) t = (i, Ready-snoc (advance a x.worker_id x.episode_id) q r k t)
