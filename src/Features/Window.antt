-- ===== src/Features/Window.antt =====
-- ai/features/feature_extractor.py: what a window holds.
use aero_safe_rl.Base.{
  ℕ, suc, ◌≤◌, ◌≡◌, refl, sym, inl, inr, List, [], ◌∷◌, ◌++◌, false, length, length-append, ok,
  arith, leb, Result, ◌>>=◌, if◌then◌else◌, Bool-cases, >>=-eq-ok,
}
use mathlib.Core.Path.{subst}
use mathlib.Core.List.{append_assoc, append-nil}
use aero_safe_rl.Features.Defs.{
  FeatureError, Frame, TelemetryWindow, new_window, last?, tail, deque_append, runs_back, append,
}

-- The last `cap` entries.
pub record IsWindow (cap : ℕ) (all fs : List Frame) : Type 0 where
  pub dropped : List Frame
  pub split : all ≡ dropped ++ fs
  pub size : length fs ≡ (if leb (length all) cap then length all else cap)

deque_append-IsWindow :
    (cap : ℕ) (all fs : List Frame) (f : Frame)
    → 1 ≤ cap
    → IsWindow cap all fs
    → IsWindow cap (all ++ f ∷ []) (deque_append cap fs f)
unfolding deque_append
deque_append-IsWindow cap all [] f h w =
    let room : leb cap 0 ≡ false = ground arith in
    rw room (record {
      dropped = w.dropped;
      split = rw w.split (simp append_assoc);
      size = ground (arith, length-append all (f ∷ []));
    })
deque_append-IsWindow cap all (x ∷ r) f h w = elim (Bool-cases (leb cap (suc (length r)))) [
  | inl full ↦ rw full (record {
    dropped = w.dropped ++ x ∷ [];
    split = rw w.split (simp append_assoc);
    size = ground (arith, length-append all (f ∷ []), length-append r (f ∷ []));
  })
  | inr room ↦ rw room (record {
    dropped = w.dropped;
    split = rw w.split (simp append_assoc);
    size = ground (arith, length-append all (f ∷ []), length-append (x ∷ r) (f ∷ []));
  })
]

-- Appending a whole list, frame by frame.
unfoldable pub append_all : TelemetryWindow → List Frame → Result FeatureError TelemetryWindow
append_all w [] = ok w
append_all w (f ∷ fs) = do w' ← append w f; append_all w' fs

-- Frame times never fall from one frame to the next.
abbrev pub NonDecreasing : List Frame → Type 0
NonDecreasing [] = Unit
NonDecreasing (f ∷ []) = Unit
NonDecreasing (f ∷ g ∷ r) = (f.t_sim_s ≤ g.t_sim_s) × NonDecreasing (g ∷ r)

-- A successful `append` changes the frames as the deque does, and nothing else.
append_lem :
    (w w' : TelemetryWindow) (f : Frame)
    → append w f ≡ ok w'
    → (w' ≡ record w { frames = deque_append w.capacity w.frames f })
      × (runs_back (last? w.frames) f ≡ false)
unfolding append
append_lem w w' f h = ground arith

NonDecreasing-snoc :
    (fs : List Frame) (f : Frame)
    → NonDecreasing fs
    → runs_back (last? fs) f ≡ false
    → NonDecreasing (fs ++ f ∷ [])
NonDecreasing-snoc [] f n h = tt
NonDecreasing-snoc (g ∷ []) f n h = ground arith
NonDecreasing-snoc (g ∷ k ∷ r) f (le, n) h = (le, NonDecreasing-snoc (k ∷ r) f n h)

NonDecreasing-tail : (fs : List Frame) → NonDecreasing fs → NonDecreasing (tail fs)
NonDecreasing-tail [] n = tt
NonDecreasing-tail (g ∷ []) n = tt
NonDecreasing-tail (g ∷ k ∷ r) (le, n) = n

runs_back-tail :
    (fs : List Frame) (f : Frame)
    → runs_back (last? fs) f ≡ false
    → runs_back (last? (tail fs)) f ≡ false
runs_back-tail [] f h = refl
runs_back-tail (g ∷ []) f h = refl
runs_back-tail (g ∷ k ∷ r) f h = h

deque_append-NonDecreasing :
    (cap : ℕ) (fs : List Frame) (f : Frame)
    → NonDecreasing fs
    → runs_back (last? fs) f ≡ false
    → NonDecreasing (deque_append cap fs f)
unfolding deque_append
deque_append-NonDecreasing cap fs f n h = elim (Bool-cases (leb cap (length fs))) [
  | inl full ↦
      rw full (NonDecreasing-snoc (tail fs) f (NonDecreasing-tail fs n) (runs_back-tail fs f h))
  | inr room ↦ rw room (NonDecreasing-snoc fs f n h)
]

append_all_lem :
    (cap : ℕ) (frames all fs : List Frame) (w' : TelemetryWindow)
    → 1 ≤ cap
    → IsWindow cap all frames
    → NonDecreasing frames
    → append_all (record { capacity = cap; frames = frames }) fs ≡ ok w'
    → IsWindow cap (all ++ fs) w'.frames × NonDecreasing w'.frames
unfolding append_all
append_all_lem cap frames all [] w' c i n h =
    let e : record { capacity = cap; frames = frames } ≡ w' = ground arith in
    rw append-nil
      (subst (λ (u : TelemetryWindow). IsWindow cap all u.frames × NonDecreasing u.frames) e (i, n))
append_all_lem cap frames all (f ∷ fs) w' c i n h =
    let w : TelemetryWindow = record { capacity = cap; frames = frames } in
    let (v, e, h') = >>=-eq-ok (append w f) (λ v. append_all v fs) h in
    let (same, fwd) = append_lem w v f e in
    rw (← append_assoc all (f ∷ []) fs) (
      append_all_lem cap (deque_append cap frames f) (all ++ f ∷ []) fs w' c
        (deque_append-IsWindow cap all frames f c i) (deque_append-NonDecreasing cap frames f n fwd)
        (subst (λ u. append_all u fs ≡ ok w') same h'))

-- After any frames that a new window accepts one by one, it holds exactly the latest of them, up to
-- its capacity, and their times never fall from one frame to the next.
pub append_all-IsWindow :
    (cap : ℕ) (fs : List Frame) (w w' : TelemetryWindow)
    → new_window cap ≡ ok w
    → append_all w fs ≡ ok w'
    → IsWindow cap fs w'.frames × NonDecreasing w'.frames
unfolding new_window
append_all-IsWindow cap fs w w' e h =
    let (c, same) : (1 ≤ cap) × (record { capacity = cap; frames = [] } ≡ w) = ground arith in
    append_all_lem cap [] [] fs w' c (record { dropped = []; split = refl; size = ground arith }) tt
      (subst (λ u. append_all u fs ≡ ok w') (sym same) h)
