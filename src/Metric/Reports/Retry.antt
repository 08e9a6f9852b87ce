-- ===== src/Metric/Reports/Retry.antt =====
-- A report that is written again after its write failed (internal/metricstore/report_batcher.go).
use mango_hub.Base.{
  ℕ, ◌+◌, ◌≡◌, ◌≢◌, refl, ap, ◌∙◌, inl, inr, Bool, true, Option, none, some, List, [], ◌∷◌, Bytes,
  eqb_refl, arith, Bool-cases,
}
use mathlib.Core.List.{append-nil}
use mango_hub.Base.Assoc.{Map, lookup, insert, lookup-insert}
use mango_hub.Base.Int.{ℤ, pos, negsuc}
use mango_hub.Metric.Points.{Report, Point, report_metric_points}
use mango_hub.Metric.Traffic.{traffic_counter_delta}
use mango_hub.Metric.Reports.{
  TrafficValues, Latest, not_written, first_of, millisecond, values_of, stamp_after, restore,
  remember, points_of, save_all, prepare, written, write_acquired, write_report_batch,
}

traffic_counter_delta_self : (c : ℤ) → traffic_counter_delta c c ≡ pos 0
unfolding traffic_counter_delta
traffic_counter_delta_self (negsuc c) = refl
traffic_counter_delta_self (pos c) = ground arith

stamp_after-stamp_after :
    (last given : ℕ)
    → given ≢ 0
    → stamp_after (stamp_after last given) given ≡ stamp_after last given + millisecond
unfolding stamp_after
stamp_after-stamp_after last given h = ground arith

module _ {F W E : Type 0} (of_int : ℤ → F) (latest_before : W → Bytes → Bytes → ℕ → Latest)
    (acquire : W → Option E × W) (enabled : W → Bool)
    (write_batch : List (Point F) → W → Option E × W) (states : Map TrafficValues)
    (given : Report F) where
  -- The report of the first attempt, and what it leaves for the agent.
  abbrev pub first : W → Report F
  first w = record given {
    updated_at =
        stamp_after (restore latest_before w given (values_of given.uuid [] states)).timestamp
          given.updated_at;
  }

  left : W → TrafficValues
  left w = remember (first w) (restore latest_before w given (values_of given.uuid [] states))

  saved : W → Map TrafficValues
  saved w = insert given.uuid (left w) states

  saved-first :
      (w : W)
      → save_all (prepare of_int latest_before w states (given ∷ []) []).pending states ≡ saved w
  unfolding prepare save_all saved left insert
  saved-first w = refl

  -- A second attempt finds what the first one left.
  values_of-saved : (w : W) → values_of given.uuid [] (saved w) ≡ left w
  unfolding values_of lookup saved
  values_of-saved w =
      ap (λ o. first_of o (lookup given.uuid (saved w))) none_pending
      ∙ ap (λ o. first_of none o) found_left
    where
      none_pending : lookup {V = TrafficValues} given.uuid [] ≡ none
      none_pending = refl

      found_left : lookup given.uuid (saved w) ≡ some (left w)
      found_left =
          lookup-insert given.uuid given.uuid (left w) states ∙ rw (eqb_refl given.uuid) refl

  initialized-restore :
      (w : W) (v : TrafficValues) → (restore latest_before w given v).initialized ≡ true
  unfolding restore
  initialized-restore w v = elim (Bool-cases v.initialized) [ inl y ↦ simp (y) | inr n ↦ simp (n) ]

  restore-left : (w w' : W) → restore latest_before w' given (left w) ≡ left w
  unfolding restore left remember
  restore-left w w' = simp (initialized-restore w (values_of given.uuid [] states))

  restored :
      (w w' : W) → restore latest_before w' given (values_of given.uuid [] (saved w)) ≡ left w
  restored w w' = ap (restore latest_before w' given) (values_of-saved w) ∙ restore-left w w'

  points_at : TrafficValues → List (Point F)
  points_at v =
      points_of of_int (record given { updated_at = stamp_after v.timestamp given.updated_at }) v

  points_at-left :
      (w : W)
      → given.updated_at ≢ 0
      → points_at (left w)
        ≡ report_metric_points of_int
            (record given { updated_at = (first w).updated_at + millisecond })
            (pos 0)
            (pos 0)
  unfolding points_at points_of left remember
  points_at-left w h =
      rw
        (
          stamp_after-stamp_after _ given.updated_at h,
          traffic_counter_delta_self given.network.total_up,
          traffic_counter_delta_self given.network.total_down,
        )
        refl

  points-retry :
      (w w' : W)
      → given.updated_at ≢ 0
      → (prepare of_int latest_before w' (saved w) (given ∷ []) []).points
        ≡ report_metric_points of_int
            (record given { updated_at = (first w).updated_at + millisecond })
            (pos 0)
            (pos 0)
  unfolding prepare points_at
  points-retry w w' h = append-nil _ ∙ ap points_at (restored w w') ∙ points_at-left w h

  -- A batch of exactly one report, of a time that is not 0, whose points cannot be written: the attempt
  -- fails with that error and has already moved the agent's state on. When the same batch is prepared
  -- again, whatever happened in between to the store, the report gets the traffic 0 and a time one
  -- millisecond later than that of the first attempt.
  pub retry-loses_traffic :
      (w w1 w2 w' : W) (e : E)
      → given.updated_at ≢ 0
      → acquire w ≡ (none, w1)
      → enabled w1 ≡ true
      → write_batch (prepare of_int latest_before w1 states (given ∷ []) []).points w1
        ≡ (some e, w2)
      → (states' : Map TrafficValues) × (write_report_batch of_int latest_before acquire enabled
            write_batch
            (given ∷ [])
            states
            w
          ≡ (inl (not_written e), states', w2))
        × ((prepare of_int latest_before w' states' (given ∷ []) []).points
            ≡ report_metric_points of_int
                (record given { updated_at = (first w1).updated_at + millisecond })
                (pos 0)
                (pos 0))
  unfolding write_report_batch written
  retry-loses_traffic w w1 w2 w' e h got on failed = (
    saved w1,
    ap (write_acquired of_int latest_before acquire enabled write_batch (given ∷ []) states) got
        ∙ rw (on, failed) (ap (λ s. (inl (not_written e), s, w2)) (saved-first w1)),
    points-retry w1 w' h,
  )
