-- ===== src/Metric/Traffic.antt =====
-- The increase of a traffic counter between two reports, TrafficCounterDelta of
-- internal/metricstore/report_mapping.go.
use mango_hub.Base.{
  ℕ, ◌-◌, ◌*◌, ◌^◌, ◌≤◌, ◌≡◌, refl, ◌⊎◌, inl, inr, arith, ltb, leb, Bool-cases, if◌then◌else◌,
}
use mango_hub.Base.Int.{ℤ, pos, negsuc, ◌≤ℤ◌}

abbrev pub max_reset_aware_delta : ℕ
max_reset_aware_delta = 64 * 2 ^ 30

unfoldable pub traffic_counter_delta : ℤ → ℤ → ℤ
traffic_counter_delta (negsuc c) previous = pos 0
traffic_counter_delta (pos c) (negsuc p) = pos 0
traffic_counter_delta (pos c) (pos p) =
    if leb p c then pos (c - p) else if ltb max_reset_aware_delta c then pos 0 else pos c

-- Whatever the two counters are, the increase is not negative and not above the current counter;
-- it is more than the difference only after a reset, and then at most 64 GiB.
pub traffic_counter_delta_bounds :
    (current previous : ℤ)
    → (d : ℕ) × (traffic_counter_delta current previous ≡ pos d)
      × ((d ≡ 0) ⊎ (pos d ≤ℤ current))
      × ((d ≤ max_reset_aware_delta) ⊎ (previous ≤ℤ current))
unfolding traffic_counter_delta
traffic_counter_delta_bounds (negsuc c) previous = (0, refl, inl refl, inl (omega arith))
traffic_counter_delta_bounds (pos c) (negsuc p) = (0, refl, inl refl, inl (omega arith))
traffic_counter_delta_bounds (pos c) (pos p) = elim (Bool-cases (leb p c)) [
  | inl y ↦ rw y (c - p, refl, inr (omega arith), inr (ground arith))
  | inr n ↦ elim (Bool-cases (ltb max_reset_aware_delta c)) [
    | inl y ↦ rw (n, y) (0, refl, inl refl, inl (omega arith))
    | inr o ↦ rw (n, o) (c, refl, inr (omega arith), inl (ground arith))
  ]
]
