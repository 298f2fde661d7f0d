-- ===== src/Features/Series.antt =====
-- ai/features/feature_extractor.py: the batch helper is causal.
use Prim.Native.String.{String}
use aero_safe_rl.Base.{ℕ, ◌≡◌, refl, List, [], ◌∷◌, ◌++◌, Float, length, ok, arith, >>=-eq-ok}
use aero_safe_rl.Features.Defs.{
  Frame, TelemetryWindow, new_window, append, extract, series_from, extract_series,
}

module _ (residual : List Frame → Float) (names : List String) where
  abbrev Vector : Type 0
  Vector = List (String × Float)

  length-series_from :
      (w : TelemetryWindow) (fs : List Frame) (out : List Vector)
      → series_from residual names w fs ≡ ok out
      → length out ≡ length fs
  unfolding series_from
  length-series_from w [] [] h = refl
  length-series_from w [] (o ∷ out) h = cc
  length-series_from w (f ∷ fs) out h =
      let (w', _, h1) = >>=-eq-ok (append w f) _ h in
      let (v, _, h2) = >>=-eq-ok (extract residual names w') _ h1 in
      let (vs, e, h3) = >>=-eq-ok (series_from residual names w' fs) (λ vs. ok (v ∷ vs)) h2 in
      ground (arith, length-series_from w' fs vs e)

  series_from-append :
      (w : TelemetryWindow) (fs gs : List Frame) (out : List Vector)
      → series_from residual names w (fs ++ gs) ≡ ok out
      → (past : List Vector) × (later : List Vector) × (series_from residual names w fs ≡ ok past)
        × (out ≡ past ++ later)
  unfolding series_from
  series_from-append w [] gs out h = ([], out, refl, refl)
  series_from-append w (f ∷ fs) gs out h =
      let (w', e1, h1) = >>=-eq-ok (append w f) _ h in
      let (v, e2, h2) = >>=-eq-ok (extract residual names w') _ h1 in
      let (vs, e3, h3) =
        >>=-eq-ok (series_from residual names w' (fs ++ gs)) (λ vs. ok (v ∷ vs)) h2 in
      let (past, later, e, q) = series_from-append w' fs gs vs e3 in
      (v ∷ past, later, rw (e1, e2, e), ground arith)

  -- A batch over an episode gives one vector for each frame, and the vectors of any first part of
  -- the episode are those of a batch over that part alone: no later frame changes them.
  pub extract_series-append :
      (capacity : ℕ) (fs gs : List Frame) (out : List Vector)
      → extract_series residual names capacity (fs ++ gs) ≡ ok out
      → (past : List Vector) × (later : List Vector) × (extract_series residual names capacity fs
          ≡ ok past)
        × (out ≡ past ++ later)
        × (length past ≡ length fs)
        × (length out ≡ length (fs ++ gs))
  unfolding extract_series
  extract_series-append capacity fs gs out h =
      let (w, e, h1) = >>=-eq-ok (new_window capacity) _ h in
      let (past, later, p, q) = series_from-append w fs gs out h1 in
      (
        past,
        later,
        rw e p,
        q,
        length-series_from w fs past p,
        length-series_from w (fs ++ gs) out h1,
      )
