-- ===== src/Mission/Geometry.antt =====
-- rl/mission_tracker.py: the float arithmetic of the tracker, on integers in fixed units. A quotient
-- is rounded towards 0 and a square root down.
use aero_safe_rl.Base.{
  ℕ, zero, suc, ◌+◌, ◌*◌, ◌/◌, Bool, ◌&&◌, ℤ, ◌-ℤ◌, sub_ℕ, leb, leb_ℤ, pos_part, neg_part,
  if◌then◌else◌,
}

abbrev pub Vec3 : Type 0
Vec3 = ℤ × (ℤ × ℤ)

abbrev pub abs_ℤ : ℤ → ℕ
abs_ℤ a = pos_part a + neg_part a

abbrev pub neg_ℤ : ℤ → ℤ
neg_ℤ a = sub_ℕ (neg_part a) (pos_part a)

infixl 70 ◌*ℤ◌
abbrev pub ◌*ℤ◌ : ℤ → ℤ → ℤ
a *ℤ b =
    sub_ℕ (pos_part a * pos_part b + neg_part a * neg_part b)
      (pos_part a * neg_part b + neg_part a * pos_part b)

abbrev pub div_ℤ : ℤ → ℕ → ℤ
div_ℤ a n = sub_ℕ (pos_part a / n) (neg_part a / n)

abbrev pub same_ℤ : ℤ → ℤ → Bool
same_ℤ a b = leb_ℤ a b && leb_ℤ b a

abbrev pub sq : ℤ → ℕ
sq a = abs_ℤ a * abs_ℤ a

-- The square root, a base-4 digit at a time.
unfoldable pub isqrt_fuel : ℕ → ℕ → ℕ
isqrt_fuel zero n = 0
isqrt_fuel (suc fuel) n =
    let r = 2 * isqrt_fuel fuel (n / 4) in if leb ((r + 1) * (r + 1)) n then r + 1 else r

-- 64 digits: lengths up to 2^63.
unfoldable pub isqrt : ℕ → ℕ
unfolding isqrt_fuel
isqrt n = isqrt_fuel 64 n

-- `math.hypot(dx, dy)`
abbrev pub hypot : ℤ → ℤ → ℕ
hypot dx dy = isqrt (sq dx + sq dy)

-- `math.dist(p, q)`, rounded down.
abbrev pub dist : Vec3 → Vec3 → ℕ
dist p q = isqrt (sq (p.0 -ℤ q.0) + (sq (p.1.0 -ℤ q.1.0) + sq (p.1.1 -ℤ q.1.1)))
