-- ===== src/Tests/Windows.antt =====
-- Telemetry windows and the batch helper at concrete inputs.
use Prim.Native.String.{String}
use aero_safe_rl.Base.{ℕ, ◌≡◌, refl, List, [], ◌∷◌, ◌++◌, some, Float, pos, length, ok}
use aero_safe_rl.Features.{
  Frame, TelemetryWindow, new_window, append, has_columns, deque_append, value_of, values_of,
  extract, series_from, extract_series,
}
use aero_safe_rl.Features.Window.{append_all, IsWindow, NonDecreasing, append_all-IsWindow}
use aero_safe_rl.Features.Series.{extract_series-append}

abbrev frame : ℕ → Frame
frame t = record { t_sim_s = t; column = λ _. some (some (pos t)) }

abbrev frames : List Frame
frames = frame 100 ∷ frame 200 ∷ frame 300 ∷ []

abbrev window : List Frame → TelemetryWindow
window fs = record { capacity = 2; frames = fs }

window_new : new_window 2 ≡ ok (window [])
unfolding new_window
window_new = refl

window_filled : append_all (window []) frames ≡ ok (window (frame 200 ∷ frame 300 ∷ []))
unfolding append_all append has_columns deque_append
window_filled = refl

append_all-IsWindow_example :
    IsWindow 2 frames (frame 200 ∷ frame 300 ∷ []) × NonDecreasing (frame 200 ∷ frame 300 ∷ [])
append_all-IsWindow_example =
    append_all-IsWindow 2 frames (window []) (window (frame 200 ∷ frame 300 ∷ [])) window_new
      window_filled

abbrev residual : List Frame → Float
residual fs = some (pos (length fs))

abbrev names : List String
names = "roll_rad" ∷ "thrust_accel_residual" ∷ []

abbrev vector : ℕ → ℕ → List (String × Float)
vector roll res = ("roll_rad", some (pos roll)) ∷ ("thrust_accel_residual", some (pos res)) ∷ []

abbrev vectors : List (List (String × Float))
vectors = vector 100 1 ∷ vector 200 2 ∷ vector 300 2 ∷ []

batch :
    extract_series residual names 2 ((frame 100 ∷ frame 200 ∷ []) ++ frame 300 ∷ []) ≡ ok vectors
unfolding extract_series series_from extract values_of value_of append has_columns deque_append
    new_window
batch = refl

extract_series-append_example :
    (past : List (List (String × Float))) × (later : List (List (String × Float))) × (extract_series
        residual names 2
        (frame 100 ∷ frame 200 ∷ [])
      ≡ ok past)
    × (vectors ≡ past ++ later)
    × (length past ≡ 2)
    × (length vectors ≡ 3)
extract_series-append_example =
    extract_series-append residual names 2 (frame 100 ∷ frame 200 ∷ []) (frame 300 ∷ []) vectors
      batch
