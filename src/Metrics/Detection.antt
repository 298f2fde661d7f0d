-- ===== src/Metrics/Detection.antt =====
-- experiments/metrics.py: rising_edges, detection_delay_s and false_alarm_count, on one entry a tick.
-- Times are microseconds.
use aero_safe_rl.Base.{
  ℕ, suc, ◌+◌, List, [], ◌∷◌, get_elem?, Option, none, some, Bool, true, false, not, ◌&&◌, ℤ, sub_ℕ,
  Result, ok, err, if◌then◌else◌,
}
use aero_safe_rl.Metrics.First.{first, drop}

pub data MetricsError : Type 0 where
  index_error : MetricsError

-- `alarm & ~prev`, from the entry before.
abbrev pub rises : Bool → List Bool → List Bool
rises prev [] = []
rises prev (a ∷ xs) = (a && not prev) ∷ rises a xs

-- As a mask: the source returns its indices.
unfoldable pub rising_edges : List Bool → List Bool
rising_edges alarm = rises false alarm

-- The sum of `~fault_active[edges]`.
abbrev pub count_healthy : List Bool → List Bool → Result MetricsError ℕ
count_healthy [] active = ok 0
count_healthy (false ∷ es) [] = count_healthy es []
count_healthy (true ∷ es) [] = err index_error
count_healthy (e ∷ es) (a ∷ xs) = elim (count_healthy es xs) [
  | err x ↦ err x
  | ok n ↦ ok (if e && not a then suc n else n)
]

unfoldable pub false_alarm_count : List Bool → List Bool → Result MetricsError ℕ
unfolding rising_edges
false_alarm_count alarm active = count_healthy (rising_edges alarm) active

-- `elapsed_s[hit] - elapsed_s[onset]`
abbrev pub elapsed_between : List ℕ → ℕ → ℕ → Result MetricsError ℤ
elapsed_between elapsed onset hit = elim (get_elem? elapsed hit) [
  | none ↦ err index_error
  | some a ↦ elim (get_elem? elapsed onset) [ none ↦ err index_error | some b ↦ ok (sub_ℕ a b) ]
]

abbrev pub detected : Result MetricsError ℤ → Result MetricsError (Option ℤ)
detected (err x) = err x
detected (ok d) = ok (some d)

unfoldable pub detection_delay_s : List Bool → List Bool → List ℕ → Result MetricsError (Option ℤ)
detection_delay_s alarm active elapsed = elim (first active) [
  | none ↦ ok none
  | some onset ↦ elim (first (drop onset alarm)) [
    | none ↦ ok none
    | some hit ↦ detected (elapsed_between elapsed onset (onset + hit))
  ]
]
