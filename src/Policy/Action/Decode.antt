-- ===== src/Policy/Action/Decode.antt =====
-- rl/policies/base_policy.py: what `decode`, `clip` and `nominal` return.
use aero_safe_rl.Base.{
  ◌≡◌, ◌≢◌, refl, List, [], ◌∷◌, Bool, true, false, ℤ, pos, ◌≤ℤ◌, leb_ℤ, ltb_ℤ, ◌⊎◌, inl, inr, ◌∙◌,
  ap, min_ℤ, max_ℤ, length, ok, err, arith, if◌then◌else◌,
}
use aero_safe_rl.Policy.Action.Spec.{
  action_spec_error, Action, ActionSpec, action_fields, decode, clip, nominal, one,
}

-- The bounds of one dimension, around its nominal value.
pub record Bounds : Type 0 where
  pub low : ℤ
  pub high : ℤ
  pub nominal : ℤ
  pub low_le : low ≤ℤ nominal
  pub le_high : nominal ≤ℤ high

-- What a loaded spec satisfies: three dimensions, each with its nominal value in range.
pub record IsValid (s : ActionSpec) : Type 0 where
  pub speed : Bounds
  pub offset : Bounds
  pub land : Bounds
  pub names_eq : s.names ≡ action_fields
  pub low_eq : s.low ≡ speed.low ∷ offset.low ∷ land.low ∷ []
  pub high_eq : s.high ≡ speed.high ∷ offset.high ∷ land.high ∷ []
  pub nominal_eq : s.nominal_vector ≡ speed.nominal ∷ offset.nominal ∷ land.nominal ∷ []

abbrev pub IsBetween : ℤ → Bounds → Type 0
IsBetween x b = (b.low ≤ℤ x) × (x ≤ℤ b.high)

-- The action lies within the spec's bounds.
abbrev pub Within : {s : ActionSpec} → IsValid s → Action → Type 0
Within v a = IsBetween a.speed_scale v.speed × IsBetween a.altitude_offset_m v.offset

-- One clipped coordinate.
abbrev pub clip_to : Bounds → ℤ → ℤ
clip_to b x = min_ℤ (max_ℤ x b.low) b.high

pub clip_to-IsBetween : (b : Bounds) (x : ℤ) → IsBetween (clip_to b x) b
clip_to-IsBetween b x = ground (arith, b.low_le, b.le_high)

pub clip_to_of_IsBetween : (b : Bounds) (x : ℤ) → IsBetween x b → clip_to b x ≡ x
clip_to_of_IsBetween b x h = ground (arith, b.low_le, b.le_high)

abbrev pub decoded : {s : ActionSpec} → IsValid s → ℤ → ℤ → ℤ → Action
decoded {s} v x y z = record {
  speed_scale = clip_to v.speed x;
  altitude_offset_m = clip_to v.offset y;
  land = leb_ℤ s.land_threshold (clip_to v.land z);
}

pub decode_lem :
    (s : ActionSpec) (v : IsValid s) (x y z : ℤ) → decode s (x ∷ y ∷ z ∷ []) ≡ ok (decoded v x y z)
unfolding decode
decode_lem s v x y z = rw (v.names_eq, v.low_eq, v.high_eq)

-- `decode` with a valid spec returns an in-range action for every vector of three numbers, and
-- ActionSpecError for a vector of any other length.
pub decode_total :
    (s : ActionSpec) (v : IsValid s) (vector : List ℤ)
    → ((length vector ≡ 3) × ((a : Action) × (decode s vector ≡ ok a) × Within v a))
      ⊎ ((length vector ≢ 3) × (decode s vector ≡ err action_spec_error))
unfolding decode
decode_total s v (x ∷ y ∷ z ∷ []) = inl (
  refl,
  (
    decoded v x y z,
    decode_lem s v x y z,
    (clip_to-IsBetween v.speed x, clip_to-IsBetween v.offset y),
  ),
)
decode_total s v [] = inr (omega arith, rw v.names_eq)
decode_total s v (x ∷ []) = inr (omega arith, rw v.names_eq)
decode_total s v (x ∷ y ∷ []) = inr (omega arith, rw v.names_eq)
decode_total s v (x ∷ y ∷ z ∷ w ∷ r) = inr (omega arith, ground (arith, v.names_eq))

-- The land dimension tells 0.0 and 1.0 apart, as a flag has to.
abbrev pub IsBinary : {s : ActionSpec} → IsValid s → Type 0
IsBinary {s} v =
    IsBetween (pos 0) v.land
    × IsBetween (pos one) v.land
    × (ltb_ℤ (pos 0) s.land_threshold ≡ true)
    × (leb_ℤ s.land_threshold (pos one) ≡ true)

land_kept :
    (s : ActionSpec) (v : IsValid s)
    → IsBinary v
    → (b : Bool) → leb_ℤ s.land_threshold (clip_to v.land (if b then pos one else pos 0)) ≡ b
land_kept s v (lo, hi, t0, t1) true = rw (clip_to_of_IsBetween v.land (pos one) hi) t1
land_kept s v (lo, hi, t0, t1) false = rw (clip_to_of_IsBetween v.land (pos 0) lo) (ground arith)

-- `clip` leaves an in-range action as it is.
pub clip_of_Within :
    (s : ActionSpec) (v : IsValid s) (a : Action) → IsBinary v → Within v a → clip s a ≡ ok a
unfolding clip
clip_of_Within s v a bin (sp, off) =
    decode_lem s v a.speed_scale a.altitude_offset_m (if a.land then pos one else pos 0)
    ∙ ap ok (
        ground (
          arith,
          clip_to_of_IsBetween v.speed a.speed_scale sp,
          clip_to_of_IsBetween v.offset a.altitude_offset_m off,
          land_kept s v bin a.land,
        ))

-- Where the land dimension tells 0.0 and 1.0 apart, `clip` brings any action into range and keeps its
-- land flag, and `clip` of the result is the result.
pub clip_idempotent :
    (s : ActionSpec) (v : IsValid s) (a : Action)
    → IsBinary v
    → (b : Action) × (clip s a ≡ ok b) × Within v b × (b.land ≡ a.land) × (clip s b ≡ ok b)
unfolding clip
clip_idempotent s v a bin =
    let b = decoded v a.speed_scale a.altitude_offset_m (if a.land then pos one else pos 0) in
    let inside : Within v b =
      (clip_to-IsBetween v.speed a.speed_scale, clip_to-IsBetween v.offset a.altitude_offset_m) in
    (
      b,
      decode_lem s v a.speed_scale a.altitude_offset_m (if a.land then pos one else pos 0),
      inside,
      land_kept s v bin a.land,
      clip_of_Within s v b bin inside,
    )

-- The nominal action is the spec's nominal vector, unclipped.
pub nominal_lem :
    (s : ActionSpec) (v : IsValid s)
    → nominal s
      ≡ ok (record {
        speed_scale = v.speed.nominal;
        altitude_offset_m = v.offset.nominal;
        land = leb_ℤ s.land_threshold v.land.nominal;
      })
unfolding nominal
nominal_lem s v = rw v.nominal_eq (
    decode_lem s v v.speed.nominal v.offset.nominal v.land.nominal
    ∙ ap ok (
        ground (
          arith,
          clip_to_of_IsBetween v.speed v.speed.nominal (v.speed.low_le, v.speed.le_high),
          clip_to_of_IsBetween v.offset v.offset.nominal (v.offset.low_le, v.offset.le_high),
          clip_to_of_IsBetween v.land v.land.nominal (v.land.low_le, v.land.le_high),
        )))
