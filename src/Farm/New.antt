-- ===== src/Farm/New.antt =====
-- experiments/sim_farm.py: what a constructed farm starts from, and where a resumed one goes on.
use Prim.Native.String.{String}
use aero_safe_rl.Base.{
  ℕ, zero, suc, ◌+◌, ◌<◌, ◌≡◌, refl, sym, ap, inl, inr, List, [], ◌∷◌, none, Bool, true, false,
  ◌==◌, length, any_of, map, ℤ, pos, Bool-cases, Option-cases, Result-cases, ok, arith,
}
use mathlib.Core.Path.{subst}
use aero_safe_rl.Base.Dict.{get, level, sum_values}
use aero_safe_rl.Simulation.{InstanceSpec, for_instance}
use aero_safe_rl.Farm.Supervisor.{Worker}
use aero_safe_rl.Farm.Defs.{Farm, FarmConfig}
use aero_safe_rl.Farm.Run.{over_restart_rate}
use aero_safe_rl.Farm.Once.{completed_of}
use aero_safe_rl.Farm.Exactly.{Fresh}
use aero_safe_rl.Farm.Books.{Agrees}
use aero_safe_rl.Farm.Create.{
  Options, Host, worker_instance, check_fault_specs, next_index, new_workers, new_config, farm_of,
  new_farm,
}

-- An index on disk is below the next one.
below_next : (is : List ℕ) (i : ℕ) → any_of (λ j. j == i) is ≡ true → i < next_index is
unfolding next_index
below_next [] i h = cc
below_next (j ∷ is) i h = ground (arith, below_next is i)

level-map :
    (g : ℕ → ℕ) (ws : List Worker) (w : ℕ)
    → any_of (λ (u : Worker). u.instance_id == w) ws ≡ true
    → level (map (λ (u : Worker). (u.instance_id, g u.instance_id)) ws) w ≡ g w
unfolding get
level-map g [] w h = cc
level-map g (u ∷ ws) w h = elim (Bool-cases (u.instance_id == w)) [
  | inl e ↦ let same : u.instance_id ≡ w = ground arith in rw e (ap g same)
  | inr e ↦ rw e (level-map g ws w (ground arith))
]

sum_zeros : (ws : List Worker) → sum_values ◌==◌ (map (λ (u : Worker). (u.instance_id, 0)) ws) ≡ 0
unfolding sum_values
sum_zeros [] = refl
sum_zeros (u ∷ ws) = ground (arith, sum_zeros ws)

-- The workers have consecutive instance numbers, no child and an unused restart budget.
abbrev pub InstancesFrom : ℕ → List Worker → Type 0
InstancesFrom m [] = Unit
InstancesFrom m (w ∷ ws) =
    ((w.instance_id ≡ m) × (w.process ≡ none) × (w.restart_count ≡ 0)) × InstancesFrom (suc m) ws

for_instance_id :
    (n : ℕ) (w m : String) (sp : ℤ) (h : Bool) (s : InstanceSpec)
    → for_instance (pos n) w m sp none h ≡ ok s
    → s.instance_id ≡ n
unfolding for_instance
for_instance_id n w m sp h s e = ground arith

-- What a constructed farm starts from.
pub record IsNew (host : Host) (o : Options) (f : Farm) : Type 0 where
  pub fresh : Fresh f
  pub agrees : Agrees f
  pub within_rate : over_restart_rate (new_config host o) f ≡ false
  pub instances : InstancesFrom o.instance_base f.supervisors
  pub size : length f.supervisors ≡ o.worker_count
  pub goes_on :
      (w i : ℕ)
      → o.resume ≡ true
      → any_of (λ (u : Worker). u.instance_id == w) f.supervisors ≡ true
      → any_of (λ j. j == i) (host.existing w) ≡ true
      → i < completed_of f w

module _ (host : Host) (o : Options) where
  new_workers-InstancesFrom :
      (n k : ℕ) (ws : List Worker)
      → new_workers host o n k ≡ ok ws
      → InstancesFrom (o.instance_base + k) ws × (length ws ≡ n)
  unfolding new_workers
  new_workers-InstancesFrom zero k ws h = let e : [] ≡ ws = ground arith in rw (sym e) (tt, refl)
  new_workers-InstancesFrom (suc n) k ws h =
      elim (Result-cases (
        for_instance (pos (worker_instance k o.instance_base)) o.world o.model o.speed_factor none
          o.headless)) [
            | inr (x, e) ↦ absurd (ground arith)
            | inl (s, e) ↦ elim (Result-cases (new_workers host o n (suc k))) [
              | inr (x, q) ↦ absurd (ground arith)
              | inl (rest, q) ↦
                  let (ids, len) = new_workers-InstancesFrom n (suc k) rest q in
                  let id =
                    for_instance_id (o.instance_base + k) o.world o.model o.speed_factor o.headless
                      s e in
                  let next : o.instance_base + suc k ≡ suc (o.instance_base + k) = omega arith in
                  let split : (record {
                    instance_id = s.instance_id;
                    heartbeat_stall_timeout_s = o.heartbeat_stall_timeout_s;
                    restart_budget = o.restart_budget_per_worker;
                    process = none;
                    restart_count = 0;
                    machine = host.machine s.instance_id;
                  }
                        ∷ rest)
                      ≡ ws =
                    ground arith in
                  rw (sym split) (((id, refl, refl), rw next at ids), omega arith)
            ]
          ]

  farm_of-IsNew :
      (d : String) (ws : List Worker)
      → InstancesFrom o.instance_base ws × (length ws ≡ o.worker_count)
      → IsNew host o (farm_of host o d ws)
  unfolding over_restart_rate get
  farm_of-IsNew d ws (ids, len) = record {
    fresh = record { no_results = refl; no_ids = refl; no_queue = refl; no_jobs = refl };
    agrees = record {
      written = refl;
      total = refl;
      by_outcome = λ t. refl;
      by_restart = λ w. refl;
    };
    within_rate = rw (sum_zeros ws) (ground arith);
    instances = ids;
    size = len;
    goes_on = λ w i r u m.
        rw (r, level-map (λ v. next_index (host.existing v)) ws w u)
          (below_next (host.existing w) i m);
  }

  -- A constructed farm holds no record and no job; its manifest is on disk and agrees with it; its
  -- workers have the consecutive instance numbers from the base, and no child; and a resumed one goes
  -- on behind every episode that a worker has on disk, so that none is flown or numbered again.
  pub new_farm-IsNew : (c : FarmConfig) (f : Farm) → new_farm host o ≡ ok (c, f) → IsNew host o f
  unfolding new_farm
  new_farm-IsNew c f h = elim (Option-cases (host.load_mission o.mission_id)) [
    | inl e ↦ absurd (ground arith)
    | inr (d, e) ↦ elim (Result-cases (check_fault_specs o)) [
      | inr (x, q) ↦ absurd (ground arith)
      | inl (_, q) ↦ elim (Result-cases (new_workers host o o.worker_count 0)) [
        | inr (x, p) ↦ absurd (ground arith)
        | inl (ws, p) ↦
            let same : farm_of host o d ws ≡ f = ground arith in
            let base : o.instance_base + 0 ≡ o.instance_base = omega arith in
            subst (IsNew host o) same
              (farm_of-IsNew d ws (rw base at (new_workers-InstancesFrom o.worker_count 0 ws p)))
      ]
    ]
  ]
