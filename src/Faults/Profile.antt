-- ===== src/Faults/Profile.antt =====
-- experiments/fault_schedule.py: the time profile of a fault.
use native.Mathlib.Nat.{mul-le-mul_left, div-le_of_le-mul, mul-div-le, le-div_iff_mul-le}
use aero_safe_rl.Base.{
  ℕ, ◌*◌, ◌/◌, ◌≤◌, ◌<◌, ◌≡◌, true, false, ℤ, pos, ◌≤ℤ◌, pos_part, leb_ℤ, ltb_ℤ, arith,
}
use aero_safe_rl.Faults.Defs.{FaultProfile, no_profile, step, ramp, commanded_severity, scaled}

-- Half-way up the ramp the severity is no more than the whole, and it never falls.
ramp_le : (s t r : ℕ) → t < r → s * t / r ≤ s
ramp_le s t r h = div-le_of_le-mul r (ground (arith, mul-le-mul_left {m = t} {n = r} s))

ramp_mono : (s t u r : ℕ) → t ≤ u → u < r → s * t / r ≤ s * u / r
ramp_mono s t u r h k =
    (le-div_iff_mul-le {k = r} {x = s * t / r} {y = s * u} (omega arith)).1
      (ground (arith, mul-le-mul_left {m = t} {n = u} s h, mul-div-le (s * t) r))

scaled_mono :
    (s t u r : ℕ)
    → t ≤ u
    → (pos 0 ≤ℤ scaled (pos s) t r)
      × (scaled (pos s) t r ≤ℤ scaled (pos s) u r)
      × (scaled (pos s) u r ≤ℤ pos s)
scaled_mono s t u r h =
    (ground arith, ground (arith, ramp_mono s t u r, ramp_le s t r), ground (arith, ramp_le s u r))

whole_step :
    (s : ℕ) (p : FaultProfile) (r u : ℤ)
    → p ≡ step
    → ltb_ℤ u (pos 0) ≡ false
    → commanded_severity (pos s) p r u ≡ pos s
unfolding commanded_severity
whole_step s step r u e b = ground (arith, b)
whole_step s ramp r u e b = cc e
whole_step s no_profile r u e b = cc e

whole_ramp :
    (s : ℕ) (p : FaultProfile) (r u : ℤ)
    → p ≡ ramp
    → ltb_ℤ u (pos 0) ≡ false
    → leb_ℤ r u ≡ true
    → commanded_severity (pos s) p r u ≡ pos s
unfolding commanded_severity
whole_ramp s ramp r u e b w = ground (arith, b, w)
whole_ramp s step r u e b w = cc e
whole_ramp s no_profile r u e b w = cc e

-- The severity that is commanded for a fault of a non-negative severity lies between none and that
-- severity, never falls as time passes, is none before the onset, is the whole severity from the
-- onset on for a step, and the whole once a ramp has run its duration.
pub commanded_severity_mono :
    (s : ℕ) (p : FaultProfile) (r t u : ℤ)
    → t ≤ℤ u
    → (pos 0 ≤ℤ commanded_severity (pos s) p r t)
      × (commanded_severity (pos s) p r t ≤ℤ commanded_severity (pos s) p r u)
      × (commanded_severity (pos s) p r u ≤ℤ pos s)
      × (ltb_ℤ u (pos 0) ≡ true → commanded_severity (pos s) p r u ≡ pos 0)
      × (p ≡ step → ltb_ℤ u (pos 0) ≡ false → commanded_severity (pos s) p r u ≡ pos s)
      × (p ≡ ramp
          → ltb_ℤ u (pos 0) ≡ false
          → leb_ℤ r u ≡ true
          → commanded_severity (pos s) p r u ≡ pos s)
unfolding commanded_severity
commanded_severity_mono s p r t u h =
    let up = scaled_mono s (pos_part t) (pos_part u) (pos_part r) in
    (
      ground (arith, up),
      ground (arith, up),
      ground (arith, up),
      λ before. ground arith,
      λ a_step begun. whole_step s p r u a_step begun,
      λ a_ramp begun whole. whole_ramp s p r u a_ramp begun whole,
    )
