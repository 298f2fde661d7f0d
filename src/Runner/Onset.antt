-- ===== src/Runner/Onset.antt =====
-- experiments/episode_runner.py and experiments/fault_schedule.py: when a flight's fault begins, and what
-- its profile asks for from then on.
use aero_safe_rl.Base.{
  ℕ, ◌≤◌, ◌≡◌, inl, inr, List, [], ◌∷◌, Option, none, some, or_else, Bool, true, ℤ, leb_ℤ, sub_ℕ,
  Bool-cases, Option-cases, arith, if◌then◌else◌,
}
use aero_safe_rl.Faults.{FaultSpec, step, commanded_severity}
use aero_safe_rl.Runner.Drive.{RotorCommand, Tick}

-- The flight's first tick.
abbrev pub first : List Tick → Option ℕ
first [] = none
first (x ∷ xs) = some (or_else (first xs) x.0)

module _ (onset : ℤ) where
  -- The first tick at or after the onset, by the ticks alone.
  abbrev pub onset_tick : List Tick → Option ℕ
  onset_tick [] = none
  onset_tick (x ∷ xs) = elim (onset_tick xs) [
    | some t ↦ some t
    | none ↦ if leb_ℤ onset (sub_ℕ x.0 (or_else (first xs) x.0)) then some x.0 else none
  ]

-- Simulated time does not run backwards.
abbrev pub NotAfter : List Tick → ℕ → Type 0
NotAfter [] t = Unit
NotAfter (x ∷ xs) t = x.0 ≤ t

abbrev pub Ordered : List Tick → Type 0
Ordered [] = Unit
Ordered (x ∷ xs) = NotAfter xs x.0 × Ordered xs

abbrev pub latest : List RotorCommand → Option RotorCommand
latest [] = none
latest (c ∷ cs) = some c

-- The command that the profile asks for at `t`, if the onset was at `o`.
abbrev pub asked : FaultSpec → ℕ → Option ℕ → Option RotorCommand
asked spec t none = none
asked spec t (some o) = some (
  spec.rotor_index,
  commanded_severity spec.severity spec.profile spec.ramp_duration_s (sub_ℕ t o),
)

leb_ℤ_later :
    (onset : ℤ) (s a t : ℕ)
    → a ≤ t
    → leb_ℤ onset (sub_ℕ a s) ≡ true
    → leb_ℤ onset (sub_ℕ t s) ≡ true
leb_ℤ_later onset s a t le h = ground arith

pub whole_severity :
    (severity ramp_s : ℤ) (t o : ℕ)
    → o ≤ t
    → commanded_severity severity step ramp_s (sub_ℕ t o) ≡ severity
unfolding commanded_severity
whole_severity severity ramp_s t o le = ground arith

module _ (onset : ℤ) where
  abbrev pub due : ℕ → Option ℕ → Bool
  due t start = leb_ℤ onset (sub_ℕ t (or_else start t))

  -- After the onset's tick, the onset has passed.
  pub onset_elapsed :
      (xs : List Tick) (o t : ℕ)
      → Ordered xs
      → NotAfter xs t
      → onset_tick onset xs ≡ some o
      → (o ≤ t) × (due t (first xs) ≡ true)
  onset_elapsed [] o t k n e = cc e
  onset_elapsed (x ∷ xs) o t (n', k) n e = elim (Option-cases (onset_tick onset xs)) [
    | inr (o', q) ↦
        let (le, later) = onset_elapsed xs o' x.0 k n' q in
        (ground (arith, le), leb_ℤ_later onset (or_else (first xs) x.0) x.0 t n later)
    | inl q ↦ elim (Bool-cases (due x.0 (first xs))) [
      | inl now ↦ (ground arith, leb_ℤ_later onset (or_else (first xs) x.0) x.0 t n now)
      | inr early ↦ absurd (ground arith)
    ]
  ]
