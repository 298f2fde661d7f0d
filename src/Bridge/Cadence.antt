-- ===== src/Bridge/Cadence.antt =====
-- ros2_ws/src/aero_bridge/aero_bridge/arming_sequence.py: how often the loops send.
use mathlib.Core.Path.{subst}
use mathlib.Core.List.{append_assoc, append-nil}
use aero_safe_rl.Base.{
  ℕ, zero, suc, ◌+◌, ◌≤◌, ◌≡◌, refl, inl, inr, List, [], ◌∷◌, ◌++◌, Option, Bool, true, false, not,
  ◌&&◌, leb, Bool-cases, Option-cases, ℤ, pos, arith, if◌then◌else◌,
}
use aero_safe_rl.Bridge.Arming.{
  VehicleStatus, Sent, Outcome, Command, offboard_heartbeat, position_setpoint, offboard_mode, arm,
  land, Timers, is_armed, is_offboard, publish, send, stamp, poll, engaged, arm_iteration,
  arm_and_engage_offboard, hold_iteration, hold_position_until, land_iteration, land_and_wait,
  warmup_s, resend_interval_s,
}

-- The commands of one kind that must not be sent too often.
abbrev pub is_mode : Command → Bool
is_mode offboard_mode = true
is_mode _ = false

abbrev pub is_land : Command → Bool
is_land land = true
is_land _ = false

-- The commands of a kind come no earlier than `from`, and each a gap after the one before.
abbrev pub Spaced : (Command → Bool) → ℕ → ℕ → List Sent → Type 0
Spaced kind gap from [] = Unit
Spaced kind gap from ((t, c) ∷ log) =
    if kind c then (from ≤ t) × Spaced kind gap (t + gap) log else Spaced kind gap from log

module _ (body : ℕ → Timers → List Sent × (Timers × Outcome)) (kind : Command → Bool) (gap : ℕ)
    (timer : Timers → ℕ)
    (steady : (i : ℕ) (t : Timers) (log : List Sent)
      → Spaced kind gap (timer (body i t).1.0) log
      → Spaced kind gap (timer t) ((body i t).0 ++ log)) where
  poll-Spaced : (n i : ℕ) (t : Timers) → Spaced kind gap (timer t) (poll body n i t).0
  unfolding poll
  poll-Spaced zero i t = tt
  poll-Spaced (suc n) i t = elim (Option-cases (body i t).1.1) [
    | inl e ↦
        rw (e, poll)
          (steady i t (poll body n (suc i) (body i t).1.0).0 (poll-Spaced n (suc i) (body i t).1.0))
    | inr (r, e) ↦
        rw (e, poll)
          (subst (Spaced kind gap (timer t)) (append-nil (body i t).0) (steady i t [] tt))
  ]

-- Setpoints and heartbeats are not of the kind.
publish-Spaced :
    (kind : Command → Bool) (gap from now : ℕ) (at : ℤ × (ℤ × ℤ)) (t : Timers) (log : List Sent)
    → kind offboard_heartbeat ≡ false
    → ((x y z : ℤ) → kind (position_setpoint x y z) ≡ false)
    → Spaced kind gap from log
    → Spaced kind gap from ((publish now at t).0 ++ log)
publish-Spaced kind gap from now (x, (y, z)) t log a b h =
    elim (Bool-cases (leb t.next_publish now)) [ inl p ↦ rw (p, a, b x y z) h | inr p ↦ rw p h ]

publish_keeps :
    (now : ℕ) (at : ℤ × (ℤ × ℤ)) (t : Timers) → (publish now at t).1.next_command ≡ t.next_command
publish_keeps now at t = ground arith

-- The first command is of the kind, the others are not.
send-Spaced :
    (kind : Command → Bool) (now : ℕ) (wanted : Bool) (c : Command) (cs : List Command) (t : Timers)
    (log : List Sent)
    → kind c ≡ true
    → ((from : ℕ)
        → Spaced kind resend_interval_s from log
        → Spaced kind resend_interval_s from (stamp now cs ++ log))
    → Spaced kind resend_interval_s (send now wanted (c ∷ cs) t).1.next_command log
    → Spaced kind resend_interval_s t.next_command ((send now wanted (c ∷ cs) t).0 ++ log)
send-Spaced kind now wanted c cs t log k others h =
    elim (Bool-cases (wanted && leb t.next_command now)) [
      | inl p ↦
          let after : Spaced kind resend_interval_s (now + resend_interval_s) log = rw p at h in
          rw (p, k) (ground arith, others (now + resend_interval_s) after)
      | inr p ↦
          let after : Spaced kind resend_interval_s t.next_command log = rw p at h in rw p after
    ]

module _ (clock : ℕ → ℕ) (status : ℕ → Option VehicleStatus) where
  arm_steady :
      (takeoff_z : ℤ) (deadline i : ℕ) (t : Timers) (log : List Sent)
      → Spaced is_mode resend_interval_s
          (arm_iteration clock status takeoff_z deadline i t).1.0.next_command
          log
      → Spaced is_mode resend_interval_s t.next_command
          ((arm_iteration clock status takeoff_z deadline i t).0 ++ log)
  unfolding arm_iteration
  arm_steady z deadline i t log h =
      let now = clock i in
      let at : ℤ × (ℤ × ℤ) = (pos 0, (pos 0, z)) in
      let t1 = (publish now at t).1 in
      let same = publish_keeps now at t in
      let s2 = (send now true (offboard_mode ∷ arm ∷ []) t1).0 in
      elim (Bool-cases (engaged clock status i)) [
        | inl e ↦
            let h1 : Spaced is_mode resend_interval_s t1.next_command log = rw e at h in
            rw e (
              publish-Spaced is_mode resend_interval_s t.next_command now at t log refl
                (λ _ _ _. refl) (subst (λ n. Spaced is_mode resend_interval_s n log) same h1))
        | inr e ↦
            let h1 : Spaced is_mode resend_interval_s
                (send now true (offboard_mode ∷ arm ∷ []) t1).1.next_command log =
              rw e at h in
            let sent =
              send-Spaced is_mode now true offboard_mode (arm ∷ []) t1 log refl (λ _ x. x) h1 in
            rw (e, append_assoc)
              (publish-Spaced is_mode resend_interval_s t.next_command now at t (s2 ++ log) refl
                (λ _ _ _. refl)
                (subst (λ n. Spaced is_mode resend_interval_s n (s2 ++ log)) same sent))
      ]

  hold_steady :
      (setpoint : ℕ → ℤ × (ℤ × ℤ)) (is_reached : ℕ → Bool) (deadline i : ℕ) (t : Timers)
      (log : List Sent)
      → Spaced is_mode resend_interval_s
          (hold_iteration clock status setpoint is_reached deadline i t).1.0.next_command
          log
      → Spaced is_mode resend_interval_s t.next_command
          ((hold_iteration clock status setpoint is_reached deadline i t).0 ++ log)
  unfolding hold_iteration
  hold_steady setpoint is_reached deadline i t log h =
      let now = clock i in
      let at = setpoint i in
      let t1 = (publish now at t).1 in
      let same = publish_keeps now at t in
      let wanted = not (is_offboard (status i)) in
      let s2 = (send now wanted (offboard_mode ∷ []) t1).0 in
      let sent = send-Spaced is_mode now wanted offboard_mode [] t1 log refl (λ _ x. x) h in
      rw append_assoc (
        publish-Spaced is_mode resend_interval_s t.next_command now at t (s2 ++ log) refl
          (λ _ _ _. refl) (subst (λ n. Spaced is_mode resend_interval_s n (s2 ++ log)) same sent))

  land_steady :
      (on_poll : ℕ → Bool) (deadline i : ℕ) (t : Timers) (log : List Sent)
      → Spaced is_land resend_interval_s
          (land_iteration clock status on_poll deadline i t).1.0.next_command
          log
      → Spaced is_land resend_interval_s t.next_command
          ((land_iteration clock status on_poll deadline i t).0 ++ log)
  unfolding land_iteration
  land_steady on_poll deadline i t log h =
      let sent = send-Spaced is_land (clock i) true land [] t log refl (λ _ x. x) in
      elim (Bool-cases (is_armed (status i))) [
        | inr down ↦ rw down (rw down at h)
        | inl up ↦ elim (Bool-cases (on_poll i)) [
          | inl q ↦ rw (up, q) (sent (rw (up, q) at h))
          | inr q ↦ rw (up, q) (sent (rw (up, q) at h))
        ]
      ]

  -- Arming asks for offboard mode not before the warm-up has streamed setpoints, and never twice
  -- within the resend interval; a hold asks for it again, and a landing is commanded, never twice
  -- within that interval.
  pub mode-Spaced :
      (start timeout_s fuel : ℕ) (takeoff_z : ℤ) (setpoint : ℕ → ℤ × (ℤ × ℤ))
      (is_reached on_poll : ℕ → Bool)
      → Spaced is_mode resend_interval_s
          (start + warmup_s)
          (arm_and_engage_offboard clock status start takeoff_z timeout_s fuel).0
        × Spaced is_mode resend_interval_s 0
            (hold_position_until clock status setpoint is_reached start timeout_s fuel).0
        × Spaced is_land resend_interval_s start
            (land_and_wait clock status on_poll start timeout_s fuel).0
  unfolding arm_and_engage_offboard hold_position_until land_and_wait
  mode-Spaced start timeout_s fuel z setpoint is_reached on_poll = (
    poll-Spaced (arm_iteration clock status z (start + timeout_s)) is_mode resend_interval_s
        (λ t. t.next_command) (arm_steady z (start + timeout_s)) fuel 0 _,
    poll-Spaced (hold_iteration clock status setpoint is_reached (start + timeout_s)) is_mode
        resend_interval_s (λ t. t.next_command)
        (hold_steady setpoint is_reached (start + timeout_s)) fuel 0 _,
    poll-Spaced (land_iteration clock status on_poll (start + timeout_s)) is_land resend_interval_s
        (λ t. t.next_command) (land_steady on_poll (start + timeout_s)) fuel 0 _,
  )
