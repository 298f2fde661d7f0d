-- ===== src/Episode/Logger.antt =====
-- ros2_ws/src/aero_bridge/aero_bridge/episode_logger.py: EpisodeLogger. A file is the value of the
-- episode's id and what is written to it; `steps_written` and `summary_written` are whether the disk
-- takes the two files.
use aero_safe_rl.Base.{
  List, [], ◌∷◌, ◌++◌, Option, none, some, Bool, Result, ok, err, if◌then◌else◌,
}
use aero_safe_rl.Base.Methods.{Method, ◌>>=◌, ◌>>◌, pure, raise, modify}
use aero_safe_rl.Episode.Schema.{
  Value, Fields, get, Schema, SchemaError, key_error, os_error, validate_episode, validate_step,
}

pub record EpisodeLogger : Type 0 where
  pub steps : List Fields
  pub step_files : List (Value × List Fields)
  pub summary_files : List (Value × Fields)

abbrev pub new_logger : EpisodeLogger
new_logger = record { steps = []; step_files = []; summary_files = [] }

abbrev pub M : Type 0 → Type 0
M A = Method SchemaError EpisodeLogger A

-- A check that does not touch the logger.
abbrev pub checked : Result SchemaError (Unit {0}) → M (Unit {0})
checked (ok u) = pure u
checked (err e) = raise e

abbrev pub buffer : Fields → M (Unit {0})
buffer row = modify (λ l. record l { steps = l.steps ++ (row ∷ []) })

module _ (s : Schema) where
  unfoldable pub log_step : Fields → M (Unit {0})
  log_step row = do checked (validate_step s row); buffer row

  -- `summary["episode_id"]`
  abbrev pub episode_id : Option Value → M Value
  episode_id none = raise key_error
  episode_id (some v) = pure v

  abbrev pub write_steps : Bool → Value → M (Unit {0})
  write_steps written i l =
      if written
      then (record l { step_files = (i, l.steps) ∷ l.step_files }, ok tt)
      else (l, err os_error)

  abbrev pub write_summary : Bool → Value → Fields → M (Unit {0})
  write_summary written i summary l =
      if written
      then (record l { summary_files = (i, summary) ∷ l.summary_files }, ok tt)
      else (l, err os_error)

  abbrev pub write_files : Option Value → Bool → Bool → Fields → M Value
  write_files id steps_written summary_written summary = do
    i ← episode_id id
    write_steps steps_written i
    write_summary summary_written i summary
    modify (λ l. record l { steps = [] })
    pure i

  unfoldable pub write_episode : Bool → Bool → Fields → M Value
  write_episode steps_written summary_written summary = do
    checked (validate_episode s summary)
    write_files (get summary "episode_id") steps_written summary_written summary
