-- ===== src/Metric/Reports.antt =====
-- Writing a batch of reports, writeReportBatch of internal/metricstore/report_batcher.go. The map
-- reportTrafficStates has one state for each agent, here its values; what is pending in a batch is
-- written back to it at the end. `W` is the state of the metric store and of the rest of the program:
-- `latest_before` reads the last counter of an agent, `acquire` waits for the gate, `enabled` is that
-- there is a store, and `write_batch` writes points, each with its error of type `E`.
pub mod Order
pub mod Retry
use mango_hub.Base.{
  ℕ, ◌+◌, ◌*◌, ◌^◌, ◌⊎◌, inl, inr, Bool, true, false, not, ◌&&◌, Option, none, some, List, [], ◌∷◌,
  ◌++◌, Bytes, codes, ltb, ◌==◌, if◌then◌else◌,
}
use mango_hub.Base.Assoc.{Map, lookup, insert}
use mango_hub.Base.Int.{ℤ, pos}
use mango_hub.Metric.Points.{Report, Point, report_metric_points}
use mango_hub.Metric.Traffic.{traffic_counter_delta}

-- reportTrafficValues
pub record TrafficValues : Type 0 where
  pub initialized : Bool
  pub timestamp : ℕ
  pub has_up : Bool
  pub total_up : ℤ
  pub has_down : Bool
  pub total_down : ℤ

abbrev pub zero_values : TrafficValues
zero_values = record {
  initialized = false;
  timestamp = 0;
  has_up = false;
  total_up = pos 0;
  has_down = false;
  total_down = pos 0;
}

-- The results of latestReportCounter.
pub data Latest : Type 0 where
  failed : Latest
  missing : Latest
  found : ℤ → Latest

pub data WriteError (E : Type 0) : Type 0 where
  not_acquired : E → WriteError E
  not_enabled : WriteError E
  not_written : E → WriteError E

abbrev pub millisecond : ℕ
millisecond = 10 ^ 6

restore_up : Latest → TrafficValues → TrafficValues
restore_up failed v = v
restore_up missing v = record v { total_up = pos 0; has_up = false }
restore_up (found n) v = record v { total_up = n; has_up = true }

restore_down : Latest → TrafficValues → TrafficValues
restore_down failed v = v
restore_down missing v = record v { total_down = pos 0; has_down = false }
restore_down (found n) v = record v { total_down = n; has_down = true }

abbrev pub first_of : Option TrafficValues → Option TrafficValues → TrafficValues
first_of (some v) stored = v
first_of none (some v) = v
first_of none none = zero_values

-- The state of an agent: that of this batch, or the stored one, or a new one.
unfoldable pub values_of : Bytes → Map TrafficValues → Map TrafficValues → TrafficValues
values_of uuid pending states = first_of (lookup uuid pending) (lookup uuid states)

-- A report that is not later than the last one is moved behind it.
unfoldable pub stamp_after : ℕ → ℕ → ℕ
stamp_after last given =
    if not (last == 0) && not (ltb last given) then last + millisecond else given

unfoldable pub save_all : Map TrafficValues → Map TrafficValues → Map TrafficValues
save_all [] states = states
save_all ((uuid, v) ∷ pending) states = save_all pending (insert uuid v states)

-- What a batch is prepared to: the reports, their points, and the states that are pending.
pub record Prepared (F : Type 0) : Type 0 where
  pub reports : List (Report F)
  pub points : List (Point F)
  pub pending : Map TrafficValues

abbrev increase : Bool → ℤ → ℤ → ℤ
increase has current previous = if has then traffic_counter_delta current previous else pos 0

module _ {F W : Type 0} (latest_before : W → Bytes → Bytes → ℕ → Latest) where
  unfoldable pub restore : W → Report F → TrafficValues → TrafficValues
  unfolding restore_up restore_down
  restore w r v =
      if v.initialized
      then v
      else record (restore_down (latest_before w (codes "net.total.down") r.uuid r.updated_at)
          (restore_up (latest_before w (codes "net.total.up") r.uuid r.updated_at) v)) {
            initialized = true;
          }

module _ {F : Type 0} where
  -- What is remembered of a report.
  unfoldable pub remember : Report F → TrafficValues → TrafficValues
  remember r v = record v {
    timestamp = r.updated_at;
    has_up = true;
    total_up = r.network.total_up;
    has_down = true;
    total_down = r.network.total_down;
  }

module _ {F : Type 0} (of_int : ℤ → F) where
  unfoldable pub points_of : Report F → TrafficValues → List (Point F)
  points_of r v =
      report_metric_points of_int r (increase v.has_up r.network.total_up v.total_up)
        (increase v.has_down r.network.total_down v.total_down)

module _ {F W : Type 0} (of_int : ℤ → F) (latest_before : W → Bytes → Bytes → ℕ → Latest) where
  -- The loop over the reports.
  unfoldable pub prepare : W → Map TrafficValues → List (Report F) → Map TrafficValues → Prepared F
  prepare w states [] pending = record { reports = []; points = []; pending = pending }
  prepare w states (given ∷ reports) pending =
      let v = restore latest_before w given (values_of given.uuid pending states) in
      let r : Report F = record given { updated_at = stamp_after v.timestamp given.updated_at } in
      let rest = prepare w states reports (insert r.uuid (remember r v) pending) in
      record rest { reports = r ∷ rest.reports; points = points_of of_int r v ++ rest.points }

  module _ {E : Type 0} (acquire : W → Option E × W) (enabled : W → Bool)
      (write_batch : List (Point F) → W → Option E × W) where
    written : Prepared F → Option E × W → (WriteError E ⊎ List (Report F)) × W
    written p (none, w) = (inr p.reports, w)
    written p (some e, w) = (inl (not_written e), w)

    -- writeReportBatch, with the stored states before and after.
    write_acquired :
        List (Report F)
        → Map TrafficValues
        → Option E × W
        → (WriteError E ⊎ List (Report F)) × Map TrafficValues × W
    unfolding written
    write_acquired reports states (some e, w) = (inl (not_acquired e), states, w)
    write_acquired reports states (none, w) =
        if not (enabled w)
        then (inl not_enabled, states, w)
        else (let p = prepare w states reports [] in
            let (result, w') = written p (write_batch p.points w) in
            (result, save_all p.pending states, w'))

    unfoldable pub write_report_batch :
        List (Report F)
        → Map TrafficValues
        → W
        → (WriteError E ⊎ List (Report F)) × Map TrafficValues × W
    unfolding write_acquired
    write_report_batch [] states w = (inr [], states, w)
    write_report_batch (r ∷ reports) states w = write_acquired (r ∷ reports) states (acquire w)
