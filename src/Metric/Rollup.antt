-- ===== src/Metric/Rollup.antt =====
-- The ladder of rollups, pkg/metric/rollup.go, and the intervals of a query, pkg/metric/interval.go. A
-- duration is an ℤ of nanoseconds; `F` is float64.
mod Chain
pub mod Ladder
pub mod Intervals
use mango_hub.Base.{
  ℕ, suc, ◌+◌, ◌-◌, ◌*◌, ◌/◌, ◌%◌, ◌^◌, ◌≡◌, Bool, true, false, ◌||◌, not, Option, none, some, List,
  [], ◌∷◌, ◌==◌, if◌then◌else◌, leb,
}
use mango_hub.Base.Int.{ℤ, pos, negsuc, pos_part, leb_ℤ, ltb_ℤ}

abbrev pub second : ℕ
second = 10 ^ 9

abbrev pub minute : ℕ
minute = 60 * second

abbrev pub hour : ℕ
hour = 60 * minute

pub record RollupTier : Type 0 where
  pub interval : ℤ
  pub retention : ℤ

pub record RollupPolicy (F : Type 0) : Type 0 where
  pub raw_retention : ℤ
  pub tiers : List RollupTier
  pub compression : F

unfoldable pub is_enabled : {F : Type 0} → RollupPolicy F → Bool
is_enabled p = elim p.tiers [ [] ↦ false | _ ∷ _ ↦ true ]

-- The retention of a tier: that of the metric for the last one, and not above it for the others.
cap : ℤ → RollupTier → List RollupTier → RollupTier
cap limit t [] = record t { retention = limit }
cap limit t (_ ∷ _) = if ltb_ℤ limit t.retention then record t { retention = limit } else t

-- The condition to leave a tier out, which compares it with the last one that was kept.
is_short : Option RollupTier → RollupTier → Bool
is_short none t = false
is_short (some kept) t = leb_ℤ t.retention kept.retention

-- The loop of withMetricRetention; `last` is the last tier that was kept.
unfoldable pub cap_tiers : ℤ → Option RollupTier → List RollupTier → List RollupTier
unfolding cap is_short
cap_tiers limit last [] = []
cap_tiers limit last (t ∷ ts) = elim (is_short last (cap limit t ts)) [
  | true ↦ cap_tiers limit last ts
  | false ↦ cap limit t ts ∷ cap_tiers limit (some (cap limit t ts)) ts
]

unfoldable pub with_metric_retention : {F : Type 0} → ℤ → RollupPolicy F → RollupPolicy F
unfolding is_enabled
with_metric_retention limit p =
    if leb_ℤ limit (pos 0) || not (is_enabled p)
    then p
    else record p { tiers = cap_tiers limit none p.tiers }

-- The errors of Validate, with the number of the tier.
pub data PolicyError : Type 0 where
  raw_retention_negative finest_not_minute : PolicyError
  interval_not_positive retention_not_positive interval_not_larger interval_not_multiple
        retention_shorter :
      ℕ → PolicyError

-- The conditions on a tier, of which the first has none before it. Both intervals are positive where
-- the remainder is taken.
validate_after : ℕ → Option RollupTier → RollupTier → Option PolicyError
validate_after i none t =
    if ltb_ℤ t.interval (pos minute) || ltb_ℤ (pos minute) t.interval
    then some finest_not_minute
    else none
validate_after i (some prev) t =
    if leb_ℤ t.interval prev.interval
    then some (interval_not_larger i)
    else if not (pos_part t.interval % pos_part prev.interval == 0)
    then some (interval_not_multiple i)
    else if ltb_ℤ t.retention prev.retention
    then some (retention_shorter i)
    else none

pub validate_tier : ℕ → Option RollupTier → RollupTier → Option PolicyError
unfolding validate_after
validate_tier i prev t =
    if leb_ℤ t.interval (pos 0)
    then some (interval_not_positive i)
    else if leb_ℤ t.retention (pos 0)
    then some (retention_not_positive i)
    else validate_after i prev t

pub first_error : Option PolicyError → Option PolicyError → Option PolicyError
first_error (some e) later = some e
first_error none later = later

pub validate_tiers : ℕ → Option RollupTier → List RollupTier → Option PolicyError
unfolding validate_tier first_error
validate_tiers i prev [] = none
validate_tiers i prev (t ∷ ts) =
    first_error (validate_tier i prev t) (validate_tiers (suc i) (some t) ts)

unfoldable pub validate : {F : Type 0} → RollupPolicy F → Option PolicyError
unfolding validate_tiers is_enabled
validate p =
    if not (is_enabled p)
    then none
    else if ltb_ℤ p.raw_retention (pos 0)
    then some raw_retention_negative
    else validate_tiers 0 none p.tiers

abbrev pub standard_query_intervals : List ℤ
standard_query_intervals =
    pos second
    ∷ pos (5 * second)
    ∷ pos (10 * second)
    ∷ pos (15 * second)
    ∷ pos (30 * second)
    ∷ pos minute
    ∷ pos (2 * minute)
    ∷ pos (5 * minute)
    ∷ pos (10 * minute)
    ∷ pos (15 * minute)
    ∷ pos (30 * minute)
    ∷ pos hour
    ∷ pos (2 * hour)
    ∷ pos (3 * hour)
    ∷ pos (6 * hour)
    ∷ pos (12 * hour)
    ∷ pos (24 * hour)
    ∷ []

-- The loop of FloorStandardInterval.
floor_from : ℤ → ℤ → List ℤ → ℤ
floor_from selected interval [] = selected
floor_from selected interval (candidate ∷ candidates) = elim (ltb_ℤ interval candidate) [
  | true ↦ selected
  | false ↦ floor_from candidate interval candidates
]

unfoldable pub floor_standard_interval : ℤ → ℤ
unfolding floor_from
floor_standard_interval interval = floor_from (pos second) interval standard_query_intervals

-- Whole days, for an interval that is above one day, and so above 0.
days_up : ℤ → ℤ
days_up (pos n) = pos (((n - 1) / (24 * hour) + 1) * (24 * hour))
days_up (negsuc n) = pos (24 * hour)

-- The loop of CeilStandardInterval.
ceil_from : ℤ → List ℤ → ℤ
unfolding days_up
ceil_from interval [] = days_up interval
ceil_from interval (candidate ∷ candidates) = elim (leb_ℤ interval candidate) [
  | true ↦ candidate
  | false ↦ ceil_from interval candidates
]

unfoldable pub ceil_standard_interval : ℤ → ℤ
unfolding ceil_from
ceil_standard_interval interval = ceil_from interval standard_query_intervals
