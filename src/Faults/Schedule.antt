-- ===== src/Faults/Schedule.antt =====
-- experiments/fault_schedule.py: what an accepted configuration can sample.
use Prim.Native.String.{String}
use text.Mathlib.Text.{◌==◌ as str_eq}
use text.Mathlib.TextEquality.{eq_iff}
use mathlib.Core.Path.{subst}
use aero_safe_rl.Base.{
  ℕ, zero, suc, ◌<◌, ◌≡◌, refl, sym, ◌⊎◌, inl, inr, Bool, true, false, List, [], ◌∷◌, Option, none,
  some, length, get_elem?, all_of, any_of, ℤ, pos, ◌≤ℤ◌, ◌+ℤ◌, ◌-ℤ◌, leb_ℤ, ltb_ℤ, Bool-cases,
  Option-cases, Result, ok, err, guard, ◌>>=◌, >>=-eq-ok, arith, +ℤ_parts,
}
use aero_safe_rl.Policy.Action.{one}
use aero_safe_rl.Faults.Defs.{
  FaultError, FaultSpec, FaultConfig, RawFaultConfig, Mission, rotor_thrust_degradation, step, ramp,
  Rng, healthy, is_rotor, is_profile, is_empty, profile_named, max_ramp, fits, read_fault_config,
  check_ranges, validate_fault_config, pick, draw_ramp, draw_fault, draw, draw_from,
  sample_fault_schedule,
}

-- What numpy documents of its draws.
pub record IsLawful {G : Type 0} (rng : Rng G) : Type 0 where
  pub choice_in : (n : ℕ) (g : G) → 0 < n → (rng.choice n g).1 < n
  pub uniform_ge : (lo hi : ℤ) (g : G) → lo ≤ℤ hi → lo ≤ℤ (rng.uniform lo hi g).1
  pub uniform_le : (lo hi : ℤ) (g : G) → lo ≤ℤ hi → (rng.uniform lo hi g).1 ≤ℤ hi

-- What `check_ranges` accepts.
pub record IsChecked (c : FaultConfig) : Type 0 where
  pub some_rotor : is_empty c.rotor_indices ≡ false
  pub rotors : all_of is_rotor c.rotor_indices ≡ true
  pub some_profile : is_empty c.profiles ≡ false
  pub profiles : all_of is_profile c.profiles ≡ true
  pub severity_ge : pos 0 ≤ℤ c.severity_range_s.0
  pub severity_order : c.severity_range_s.0 ≤ℤ c.severity_range_s.1
  pub severity_le : c.severity_range_s.1 ≤ℤ pos one
  pub onset_ge : pos 0 ≤ℤ c.onset_time_range_s.0
  pub onset_order : c.onset_time_range_s.0 ≤ℤ c.onset_time_range_s.1
  pub ramp_gt : ltb_ℤ (pos 0) c.ramp_duration_range_s.0 ≡ true
  pub ramp_order : c.ramp_duration_range_s.0 ≤ℤ c.ramp_duration_range_s.1

check_ranges-IsChecked : (c : FaultConfig) → check_ranges c ≡ ok tt → IsChecked c
unfolding check_ranges
check_ranges-IsChecked c h = record {
  some_rotor = ground arith;
  rotors = ground arith;
  some_profile = ground arith;
  profiles = ground arith;
  severity_ge = ground arith;
  severity_order = ground arith;
  severity_le = ground arith;
  onset_ge = ground arith;
  onset_order = ground arith;
  ramp_gt = ground arith;
  ramp_order = ground arith;
}

-- A fault that leaves the mission's tail free, or none.
pub record IsFault (m : Mission) (i : ℕ) (s : FaultSpec) : Type 0 where
  pub index_eq : s.episode_index ≡ i
  pub applied : s.fault_applied ≡ true
  pub rotor_ge : pos 0 ≤ℤ s.rotor_index
  pub rotor_le : s.rotor_index ≤ℤ pos 3
  pub severity_ge : pos 0 ≤ℤ s.severity
  pub severity_le : s.severity ≤ℤ pos one
  pub onset : ℤ
  pub onset_eq : s.onset_time_s ≡ some onset
  pub onset_ge : pos 0 ≤ℤ onset
  pub in_time : (onset +ℤ s.ramp_duration_s) ≤ℤ (m.timeout_s -ℤ (m.hold_time_s +ℤ m.final_hover_s))
  pub shape :
      ((s.profile ≡ step) × (s.ramp_duration_s ≡ pos 0))
      ⊎ ((s.profile ≡ ramp) × (ltb_ℤ (pos 0) s.ramp_duration_s ≡ true))

abbrev pub IsDrawn : Mission → ℕ → FaultSpec → Type 0
IsDrawn m i s = (s ≡ healthy i) ⊎ IsFault m i s

abbrev pub AllDrawn : Mission → ℕ → List FaultSpec → Type 0
AllDrawn m i [] = Unit
AllDrawn m i (s ∷ ss) = IsDrawn m i s × AllDrawn m (suc i) ss

element {ℓ} :
    {A : Type ℓ} (p : A → Bool) (xs : List A) (i : ℕ)
    → all_of p xs ≡ true
    → i < length xs
    → (x : A) × (get_elem? xs i ≡ some x)
      × (p x ≡ true)
      × ((q : A → Bool) → q x ≡ true → any_of q xs ≡ true)
element p [] i h k = absurd (omega arith)
element p (x ∷ xs) zero h k = (x, refl, ground arith, λ q e. ground arith)
element p (x ∷ xs) (suc i) h k =
    let (y, e, f, here) = element p xs i (ground arith) (omega arith) in
    (y, e, f, λ q z. ground (arith, here q z))

length_pos {ℓ} : {A : Type ℓ} (xs : List A) → is_empty xs ≡ false → 0 < length xs
length_pos [] h = cc
length_pos (x ∷ xs) h = omega arith

sum_le : (a b x y z : ℤ) → a ≤ℤ b → x ≤ℤ y → leb_ℤ (b +ℤ y) z ≡ true → (a +ℤ x) ≤ℤ z
sum_le a b x y z h k e = ground (arith, +ℤ_parts a x, +ℤ_parts b y)

module _ {G : Type 0} (rng : Rng G) (law : IsLawful rng) (c : FaultConfig) where
  pick_lem {ℓ} :
      {A : Type ℓ} (p : A → Bool) (xs : List A) (g : G)
      → is_empty xs ≡ false
      → all_of p xs ≡ true
      → (x : A) × ((pick rng c xs g).1 ≡ ok x)
        × (p x ≡ true)
        × ((q : A → Bool) → q x ≡ true → any_of q xs ≡ true)
  pick_lem p xs g e h =
      let (x, q, k, there) =
        element p xs (rng.choice (length xs) g).1 h
          (law.choice_in (length xs) g (length_pos xs e)) in
      (x, rw (q, pick) refl, k, there)

  -- The ramp's duration fits the profile, and the room that the configuration keeps for it.
  ramp_lem :
      IsChecked c
      → (name : String) (g : G) → is_profile name ≡ true
      → ((q : String → Bool) → q name ≡ true → any_of q c.profiles ≡ true)
      → let p = profile_named name in
        let r = (draw_ramp rng c p g).1 in
        (((p ≡ step) × (r ≡ pos 0)) ⊎ ((p ≡ ramp) × (ltb_ℤ (pos 0) r ≡ true))) × (r ≤ℤ max_ramp c)
  ramp_lem k name g named there = elim (Bool-cases (str_eq name "step")) [
    | inl e ↦ rw e (inl (refl, refl), ground (arith, k.ramp_gt, k.ramp_order))
    | inr e ↦
        let is_ramp_name : str_eq name "ramp" ≡ true = ground arith in
        let used : any_of (str_eq "ramp") c.profiles ≡ true =
          there (str_eq "ramp")
            ((eq_iff "ramp" name).1 (sym ((eq_iff name "ramp").0 is_ramp_name))) in
        let lo = c.ramp_duration_range_s.0 in
        let hi = c.ramp_duration_range_s.1 in
        rw (e, is_ramp_name, used)
          (
            inr (refl, ground (arith, k.ramp_gt, law.uniform_ge lo hi g k.ramp_order)),
            law.uniform_le lo hi g k.ramp_order,
          )
  ]

  module _ (m : Mission) (k : IsChecked c) (fit : fits c m ≡ true) where
    draw_fault-IsFault :
        (i : ℕ) (g : G) → (s : FaultSpec) × ((draw_fault rng c i g).1 ≡ ok s) × IsFault m i s
    unfolding draw_fault
    draw_fault-IsFault i g =
        let (rotor, er, kr, _) = pick_lem is_rotor c.rotor_indices g k.some_rotor k.rotors in
        let g1 = (pick rng c c.rotor_indices g).0 in
        let (slo, shi) = c.severity_range_s in
        let (g2, sev) = rng.uniform slo shi g1 in
        let (olo, ohi) = c.onset_time_range_s in
        let (g3, onset) = rng.uniform olo ohi g2 in
        let (name, en, kn, there) = pick_lem is_profile c.profiles g3 k.some_profile k.profiles in
        let g4 = (pick rng c c.profiles g3).0 in
        let (shape, short) = ramp_lem k name g4 kn there in
        let ramp_s = (draw_ramp rng c (profile_named name) g4).1 in
        (
          record {
            episode_index = i;
            fault_applied = true;
            fault_type = rotor_thrust_degradation;
            rotor_index = rotor;
            severity = sev;
            onset_time_s = some onset;
            profile = profile_named name;
            ramp_duration_s = ramp_s;
          },
          rw (er, en, draw_fault) refl,
          record {
            index_eq = refl;
            applied = refl;
            rotor_ge = ground arith;
            rotor_le = ground arith;
            severity_ge = ground (arith, law.uniform_ge slo shi g1 k.severity_order, k.severity_ge);
            severity_le = ground (arith, law.uniform_le slo shi g1 k.severity_order, k.severity_le);
            onset = onset;
            onset_eq = refl;
            onset_ge = ground (arith, law.uniform_ge olo ohi g2 k.onset_order, k.onset_ge);
            in_time =
                sum_le onset ohi ramp_s (max_ramp c) _ (law.uniform_le olo ohi g2 k.onset_order)
                  short fit;
            shape = shape;
          },
        )

    draw-IsDrawn : (i : ℕ) (g : G) → (s : FaultSpec) × ((draw rng c i g).1 ≡ ok s) × IsDrawn m i s
    unfolding draw
    draw-IsDrawn i g = elim (Bool-cases (ltb_ℤ (rng.random g).1 c.healthy_fraction)) [
      | inl e ↦ (healthy i, rw (e, draw) refl, inl refl)
      | inr e ↦ let (s, q, f) = draw_fault-IsFault i (rng.random g).0 in (s, rw (e, draw) q, inr f)
    ]

    draw_from-AllDrawn :
        (n i : ℕ) (g : G)
        → (ss : List FaultSpec) × (draw_from rng c n i g ≡ ok ss)
          × (length ss ≡ n)
          × AllDrawn m i ss
    unfolding draw_from
    draw_from-AllDrawn zero i g = ([], refl, refl, tt)
    draw_from-AllDrawn (suc n) i g =
        let (s, e, d) = draw-IsDrawn i g in
        let (ss, e', len, ds) = draw_from-AllDrawn n (suc i) (draw rng c i g).0 in
        (s ∷ ss, rw (e, e') refl, omega arith, (d, ds))

validate_lem :
    (load_mission : String → Option Mission) (raw : RawFaultConfig) (c : FaultConfig)
    → validate_fault_config load_mission raw ≡ ok c
    → IsChecked c × ((m : Mission) × (load_mission c.mission_id ≡ some m) × (fits c m ≡ true))
unfolding validate_fault_config
validate_lem load_mission raw c h =
    let last : FaultConfig → Result FaultError FaultConfig = λ d. elim (load_mission d.mission_id) [
      | none ↦ err FaultError.mission_error
      | some m ↦ (guard (fits d m) FaultError.fault_config_error >>= λ _. ok d)
    ] in
    let (d, _, h1) = >>=-eq-ok (read_fault_config raw) (λ d. check_ranges d >>= λ _. last d) h in
    let (_, checked, h2) = >>=-eq-ok (check_ranges d) (λ _. last d) h1 in
    elim (Option-cases (load_mission d.mission_id)) [
      | inl e ↦ absurd (ground arith)
      | inr (m, e) ↦
          let (same, fit) : (d ≡ c) × (fits d m ≡ true) = ground arith in
          subst
            (λ (x : FaultConfig).
              IsChecked x
              × ((m : Mission) × (load_mission x.mission_id ≡ some m) × (fits x m ≡ true)))
            same (check_ranges-IsChecked d checked, (m, e, fit))
    ]

-- From an accepted configuration and with draws that keep what numpy documents, sampling returns a
-- schedule of n episodes in order. Each is the healthy label, or a fault on a rotor 0 to 3 with a
-- severity between none and a full loss, a step or a ramp of a positive duration, whose onset and
-- ramp leave the mission its hold and its final hover.
pub sample_fault_schedule-AllDrawn :
    {G : Type 0} (rng : Rng G) (load_mission : String → Option Mission) (raw : RawFaultConfig)
    (c : FaultConfig) (n : ℕ) (g : G)
    → IsLawful rng
    → validate_fault_config load_mission raw ≡ ok c
    → (m : Mission) × (load_mission c.mission_id ≡ some m)
      × ((schedule : List FaultSpec) × (sample_fault_schedule rng c n g ≡ ok schedule)
          × (length schedule ≡ n)
          × AllDrawn m 0 schedule)
unfolding sample_fault_schedule
sample_fault_schedule-AllDrawn rng load_mission raw c n g law h =
    let (k, (m, e, fit)) = validate_lem load_mission raw c h in
    (m, e, draw_from-AllDrawn rng law c m k fit n 0 g)
