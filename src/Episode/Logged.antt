-- ===== src/Episode/Logged.antt =====
-- experiments/episode_schema.py and ros2_ws/src/aero_bridge/aero_bridge/episode_logger.py: what reaches
-- the files satisfies the schema.
use Prim.Native.String.{String}
use text.Mathlib.TextEquality.{eq_iff}
use aero_safe_rl.Base.{
  ℕ, suc, ◌≡◌, refl, ap, inl, inr, List, [], ◌∷◌, ◌++◌, get_elem?, All, all_of, Option, none, some,
  is_some, Bool, true, false, Result, ok, err, >>=-eq-ok, Bool-cases, arith, guard,
}
use aero_safe_rl.Episode.Schema.{
  Value, word, Fields, get, Schema, SchemaError, schema_version, is_word, one_of, check_required,
  validate_episode, validate_step,
}
use aero_safe_rl.Base.Methods.{◌>>◌ as ◌>>m◌}
use aero_safe_rl.Episode.Logger.{
  M, buffer, checked, write_files, EpisodeLogger, new_logger, log_step, write_episode,
}

-- A field is one of the schema's words.
abbrev pub Among : List String → Option Value → Type 0
Among ws v = (i : ℕ) × (w : String) × (get_elem? ws i ≡ some w) × (v ≡ some (word w))

is_word-eq : (s : String) (v : Option Value) → is_word s v ≡ true → v ≡ some (word s)
is_word-eq s none h = cc h
is_word-eq s (some (word t)) h = ap (λ t. some (word t)) ((eq_iff t s).0 h)
is_word-eq s (some _) h = cc h

one_of-Among : (ws : List String) (v : Option Value) → one_of ws v ≡ true → Among ws v
one_of-Among [] v h = cc h
one_of-Among (w ∷ ws) v h = elim (Bool-cases (is_word w v)) [
  | inl e ↦ (0, w, refl, is_word-eq w v e)
  | inr n ↦ let (i, x, at, is) = one_of-Among ws v (ground (arith, h)) in (suc i, x, at, is)
]

all_of-All :
    {A : Type 0} (p : A → Bool) (xs : List A) → all_of p xs ≡ true → All (λ x. p x ≡ true) xs
all_of-All p [] h = tt
all_of-All p (x ∷ xs) h = elim (Bool-cases (p x)) [
  | inl e ↦ (e, all_of-All p xs (ground (arith, h)))
  | inr n ↦ absurd (ground (arith, h))
]

guard-ok : (b : Bool) (e : SchemaError) (u : Unit {0}) → guard b e ≡ ok u → b ≡ true
guard-ok true e u h = refl
guard-ok false e u h = cc h

-- Every required field is there, in the current schema version.
abbrev pub HasFields : List String → Fields → Type 0
HasFields required r =
    All (λ f. is_some (get r f) ≡ true) required
    × (get r "schema_version" ≡ some (word schema_version))

module _ (s : Schema) where
  abbrev pub ValidEpisode : Fields → Type 0
  ValidEpisode r =
      HasFields s.episode_required r
      × Among s.termination_reasons (get r "termination_reason")
      × Among s.reset_tiers (get r "reset_tier")
      × Among s.fault_types (get r "fault_type")
      × Among s.fault_profiles (get r "fault_profile")

  check_required-HasFields :
      (r : Fields) (required : List String) (u : Unit {0})
      → check_required r required ≡ ok u
      → HasFields required r
  unfolding check_required
  check_required-HasFields r required u h =
      let (_, p, q) = >>=-eq-ok (guard (all_of (λ f. is_some (get r f)) required) _) _ h in
      (
        all_of-All _ required (guard-ok _ _ _ p),
        is_word-eq schema_version (get r "schema_version") (guard-ok _ _ u q),
      )

  validate_episode-Valid :
      (r : Fields) (u : Unit {0}) → validate_episode s r ≡ ok u → ValidEpisode r
  unfolding validate_episode
  validate_episode-Valid r u h =
      let (v, a, h1) = >>=-eq-ok (check_required r s.episode_required) _ h in
      let (_, b, h2) =
        >>=-eq-ok (guard (one_of s.termination_reasons (get r "termination_reason")) _) _ h1 in
      let (_, c, h3) = >>=-eq-ok (guard (one_of s.reset_tiers (get r "reset_tier")) _) _ h2 in
      let (_, d, e) = >>=-eq-ok (guard (one_of s.fault_types (get r "fault_type")) _) _ h3 in
      (
        check_required-HasFields r s.episode_required v a,
        one_of-Among s.termination_reasons _ (guard-ok _ _ _ b),
        one_of-Among s.reset_tiers _ (guard-ok _ _ _ c),
        one_of-Among s.fault_types _ (guard-ok _ _ _ d),
        one_of-Among s.fault_profiles _ (guard-ok _ _ _ e),
      )

  -- What a logger holds and has written.
  pub record AllValid (l : EpisodeLogger) : Type 0 where
    pub buffered : All (HasFields s.step_required) l.steps
    pub steps_on_disk : All (λ f. All (HasFields s.step_required) f.1) l.step_files
    pub summaries : All (λ f. ValidEpisode f.1) l.summary_files

  new_logger-AllValid : AllValid new_logger
  new_logger-AllValid = record { buffered = tt; steps_on_disk = tt; summaries = tt }

-- What goes on after a check may rely on it.
checked-keeps :
    {A : Type 0} (P : EpisodeLogger → Type 0) (x : Result SchemaError (Unit {0})) (m : M A)
    (l : EpisodeLogger)
    → ((u : Unit {0}) → x ≡ ok u → P (m l).0)
    → P l
    → P ((checked x >>m m) l).0
checked-keeps P (ok u) m l h p = h u refl
checked-keeps P (err e) m l h p = p

All-snoc :
    {A : Type 0} (P : A → Type 0) (xs : List A) (x : A) → All P xs → P x → All P (xs ++ (x ∷ []))
All-snoc P [] x p q = (q, tt)
All-snoc P (y ∷ ys) x (p, ps) q = (p, All-snoc P ys x ps q)

-- The calls of a run; one that raises leaves the logger as it then is.
pub data Call : Type 0 where
  step : Fields → Call
  episode : Bool → Bool → Fields → Call

module _ (s : Schema) where
  abbrev pub call : Call → EpisodeLogger → EpisodeLogger
  call (Call.step r) l = (log_step s r l).0
  call (Call.episode p q r) l = (write_episode s p q r l).0

  -- The latest call first.
  abbrev pub after : List Call → EpisodeLogger
  after [] = new_logger
  after (c ∷ cs) = call c (after cs)

  validate_step_lem :
      (r : Fields) (u : Unit {0})
      → validate_step s r ≡ ok u
      → check_required r s.step_required ≡ ok u
  unfolding validate_step
  validate_step_lem r u e = e

  -- The two files, when the summary is valid.
  files-AllValid :
      (o : Option Value) (p q : Bool) (r : Fields) (l : EpisodeLogger)
      → ValidEpisode s r
      → AllValid s l
      → AllValid s (write_files s o p q r l).0
  files-AllValid none p q r l d v = v
  files-AllValid (some i) false q r l d v = v
  files-AllValid (some i) true false r l d v = record {
    buffered = v.buffered;
    steps_on_disk = (v.buffered, v.steps_on_disk);
    summaries = v.summaries;
  }
  files-AllValid (some i) true true r l d v = record {
    buffered = tt;
    steps_on_disk = (v.buffered, v.steps_on_disk);
    summaries = (d, v.summaries);
  }

  log_step-AllValid :
      (r : Fields) (l : EpisodeLogger) → AllValid s l → AllValid s (log_step s r l).0
  unfolding log_step
  log_step-AllValid r l v =
      checked-keeps (AllValid s) (validate_step s r) (buffer r) l
        (λ u e. record {
          buffered =
              All-snoc _ l.steps r v.buffered
                (check_required-HasFields s r s.step_required u (validate_step_lem r u e));
          steps_on_disk = v.steps_on_disk;
          summaries = v.summaries;
        })
        v

  write_episode-AllValid :
      (p q : Bool) (r : Fields) (l : EpisodeLogger)
      → AllValid s l
      → AllValid s (write_episode s p q r l).0
  unfolding write_episode
  write_episode-AllValid p q r l v =
      checked-keeps (AllValid s) (validate_episode s r) (write_files s (get r "episode_id") p q r) l
        (λ u e. files-AllValid (get r "episode_id") p q r l (validate_episode-Valid s r u e) v) v

  -- Whatever is logged and written, and whichever calls raise or fail on the disk, each step that is
  -- buffered or in a file has the required fields in the current version, and each summary in a file
  -- also has the schema's words for its reason, tier, fault type and profile.
  pub logged-AllValid : (cs : List Call) → AllValid s (after cs)
  logged-AllValid [] = new_logger-AllValid s
  logged-AllValid (Call.step r ∷ cs) = log_step-AllValid r (after cs) (logged-AllValid cs)
  logged-AllValid (Call.episode p q r ∷ cs) =
      write_episode-AllValid p q r (after cs) (logged-AllValid cs)
