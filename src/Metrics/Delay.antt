-- ===== src/Metrics/Delay.antt =====
-- experiments/metrics.py: what a detection delay measures.
use aero_safe_rl.Base.{
  ℕ, ◌+◌, ◌-◌, ◌≤◌, ◌<◌, ◌≡◌, sym, ap, ◌∙◌, ◌↔◌, inl, inr, List, get_elem?, some, Bool, true, false,
  Option-cases, ℤ, sub_ℕ, Result, ok, err, arith,
}
use aero_safe_rl.Metrics.First.{first, drop, IsFirst, first_iff, get_elem?-drop}
use aero_safe_rl.Metrics.Detection.{MetricsError, elapsed_between, detected, detection_delay_s}

detected-ok : (r : Result MetricsError ℤ) (d : ℤ) → detected r ≡ ok (some d) → r ≡ ok d
detected-ok (err x) d h = cc h
detected-ok (ok e) d h = ground (arith, h)

module _ (alarm active : List Bool) (elapsed : List ℕ) where
  -- The fault is first active at `onset`, the alarm first sounds from then on at `hit`, and `d` is the
  -- time between.
  pub record Delayed (d : ℤ) : Type 0 where
    pub onset : ℕ
    pub hit : ℕ
    pub a : ℕ
    pub b : ℕ
    pub active_at : IsFirst active onset
    pub later : onset ≤ hit
    pub sounds : get_elem? alarm hit ≡ some true
    pub silent : (j : ℕ) → onset ≤ j → j < hit → get_elem? alarm j ≡ some false
    pub hit_eq : get_elem? elapsed hit ≡ some a
    pub onset_eq : get_elem? elapsed onset ≡ some b
    pub delay_eq : d ≡ sub_ℕ a b

  measured :
      (onset hit : ℕ) (d : ℤ)
      → elapsed_between elapsed onset hit ≡ ok d
      → (a : ℕ) × (b : ℕ) × (get_elem? elapsed hit ≡ some a)
        × (get_elem? elapsed onset ≡ some b)
        × (d ≡ sub_ℕ a b)
  measured onset hit d h = elim (Option-cases (get_elem? elapsed hit)) [
    | inl e ↦ absurd (ground (arith, h))
    | inr (a, e) ↦ elim (Option-cases (get_elem? elapsed onset)) [
      | inl f ↦ absurd (ground (arith, h))
      | inr (b, f) ↦ (a, b, e, f, ground (arith, h))
    ]
  ]

  -- The alarm's first entry from the onset on, seen in the whole list.
  from_onset :
      (onset k : ℕ)
      → IsFirst (drop onset alarm) k
      → (get_elem? alarm (onset + k) ≡ some true)
        × ((j : ℕ) → onset ≤ j → j < onset + k → get_elem? alarm j ≡ some false)
  from_onset onset k (hit, before) = (
    sym (get_elem?-drop onset alarm k) ∙ hit,
    λ j le lt.
        let same : onset + (j - onset) ≡ j = omega (arith, le) in
        ap (get_elem? alarm) (sym same)
        ∙ sym (get_elem?-drop onset alarm (j - onset))
        ∙ before (j - onset) (omega (arith, le, lt)),
  )

  to_onset :
      (onset hit : ℕ)
      → onset ≤ hit
      → get_elem? alarm hit ≡ some true
      → ((j : ℕ) → onset ≤ j → j < hit → get_elem? alarm j ≡ some false)
      → IsFirst (drop onset alarm) (hit - onset)
  to_onset onset hit le sounds silent =
      let same : onset + (hit - onset) ≡ hit = omega (arith, le) in
      (
        get_elem?-drop onset alarm (hit - onset) ∙ ap (get_elem? alarm) same ∙ sounds,
        λ j lt.
            get_elem?-drop onset alarm j ∙ silent (onset + j) (omega arith) (omega (arith, lt, le)),
      )

  delay-Delayed : (d : ℤ) → detection_delay_s alarm active elapsed ≡ ok (some d) → Delayed d
  unfolding detection_delay_s
  delay-Delayed d h = elim (Option-cases (first active)) [
    | inl e ↦ absurd (ground (arith, h))
    | inr (onset, e) ↦ elim (Option-cases (first (drop onset alarm))) [
      | inl f ↦ absurd (ground (arith, h))
      | inr (k, f) ↦
          let (sounds, silent) = from_onset onset k ((first_iff (drop onset alarm) k).0 f) in
          let (a, b, p, q, r) =
            measured onset (onset + k) d
              (detected-ok (elapsed_between elapsed onset (onset + k)) d (ground (arith, h))) in
          record {
            onset = onset;
            hit = onset + k;
            a = a;
            b = b;
            active_at = (first_iff active onset).0 e;
            later = omega arith;
            sounds = sounds;
            silent = silent;
            hit_eq = p;
            onset_eq = q;
            delay_eq = r;
          }
    ]
  ]

  Delayed-delay : (d : ℤ) → Delayed d → detection_delay_s alarm active elapsed ≡ ok (some d)
  unfolding detection_delay_s
  Delayed-delay d x =
      let e = (first_iff active x.onset).1 x.active_at in
      let f =
        (first_iff (drop x.onset alarm) (x.hit - x.onset)).1
          (to_onset x.onset x.hit x.later x.sounds x.silent) in
      let same : x.onset + (x.hit - x.onset) ≡ x.hit = omega (arith, x.later) in
      let between : elapsed_between elapsed x.onset x.hit ≡ ok (sub_ℕ x.a x.b) =
        ground (arith, x.hit_eq, x.onset_eq) in
      rw (e, f, same, detection_delay_s)
        (ap detected between ∙ ap (λ v. ok (some v)) (sym x.delay_eq))

  -- The delay of a detection is the time from the tick at which the fault is first active to the
  -- first one at or after it at which the alarm sounds, and there is one only then.
  pub delay_iff : (d : ℤ) → (detection_delay_s alarm active elapsed ≡ ok (some d)) ↔ Delayed d
  delay_iff d = (delay-Delayed d, Delayed-delay d)
