-- ===== src/Metric/Tests.antt =====
-- Tests and examples for internal/metricstore and pkg/metric.
use mango_hub.Base.{
  ℕ, suc, zero, ◌+◌, ◌*◌, ◌≡◌, refl, inl, true, false, Option, none, some, List, [], ◌∷◌, ◌++◌, map,
  All, Bytes, codes, eqb, arith,
}
use mango_hub.Base.Assoc.{Map, lookup, insert}
use mango_hub.Base.Int.{ℤ, pos}
use mango_hub.Metric.Points.{Report, Point, report_metric_points}
use mango_hub.Metric.Traffic.{traffic_counter_delta}
use mango_hub.Metric.Reports.{
  remember, TrafficValues, stamp_after, restore, values_of, Latest, found, millisecond, not_written,
  prepare, write_report_batch,
}
use mango_hub.Metric.Reports.Order.{Rising, prepare-Rising}
use mango_hub.Metric.Reports.Retry.{retry-loses_traffic}
use mango_hub.Metric.Batcher.{
  Store, Event, report, ping, ticks, stops, stop_is_served, new_worker, write_batches, serve, run,
}
use mango_hub.Metric.Batcher.Journal.{report_journal, ping_journal, run-journal}
use mango_hub.Metric.Batcher.Noted.{Noted, noting}
use mango_hub.Metric.Batcher.Stop.{stop-writes}
use mango_hub.Metric.Rollup.{minute, hour, RollupPolicy, with_metric_retention, cap_tiers, validate}
use mango_hub.Metric.Rollup.Ladder.{last_from, with_metric_retention-valid}

-- A counter that starts again from 0.
restarts : traffic_counter_delta (pos 30) (pos 900) ≡ pos 30
unfolding traffic_counter_delta
restarts = refl

-- A store whose next writes fail as often as its first number says, and in which a report is left
-- also by a write that fails.
abbrev Logs : Type 0
Logs = ℕ × List ℕ × List ℕ

abbrev put_reports : List ℕ → Logs → Option Bytes × Logs
put_reports rs (zero, a, b) = (none, (zero, a ++ rs, b))
put_reports rs (suc n, a, b) = (some (codes "timeout"), (n, a ++ rs, b))

abbrev put_pings : List ℕ → Logs → Option Bytes × Logs
put_pings ps (zero, a, b) = (none, (zero, a, b ++ ps))
put_pings ps (suc n, a, b) = (some (codes "timeout"), (n, a, b))

abbrev logs : Store ℕ ℕ Logs Bytes
logs = record { write_reports = put_reports; write_pings = put_pings }

abbrev start : Noted ℕ ℕ Logs
start = record { store = (1, [], []); reports = []; pings = [] }

-- Two reports and a ping, with a tick in between whose write fails, and a cancelled call.
abbrev calls : List (Event ℕ ℕ)
calls = report false 1 ∷ ticks ∷ report true 9 ∷ ping false 7 ∷ report false 2 ∷ stops ∷ []

-- The report of the write that failed is in the store twice, and noted once.
run-calls : run (noting logs) (calls ++ stop_is_served ∷ report false 3 ∷ []) new_worker start ≡ (
  (1 ∷ 2 ∷ [], 7 ∷ []),
  record new_worker { stopping = true; done = true },
  record { store = (0, 1 ∷ 1 ∷ 2 ∷ [], 7 ∷ []); reports = 1 ∷ 2 ∷ []; pings = 7 ∷ [] },
)
unfolding run new_worker write_batches
run-calls = refl

run-journal_example :
    let (given, k, w) = run (noting logs) calls new_worker start in
    (run logs calls new_worker (1, [], []) ≡ (given, k, w.store))
    × (report_journal k w ≡ report_journal new_worker start ++ given.0)
    × (ping_journal k w ≡ ping_journal new_worker start ++ given.1)
run-journal_example = run-journal logs calls new_worker start

stop-writes_example :
    let (given, k, w) =
      run (noting logs) (calls ++ stop_is_served ∷ report false 3 ∷ []) new_worker start in
    (run logs (calls ++ stop_is_served ∷ report false 3 ∷ []) new_worker (1, [], [])
      ≡ (given, k, w.store))
    × (w.reports ≡ given.0)
    × (w.pings ≡ given.1)
unfolding run serve new_worker write_batches
stop-writes_example = stop-writes logs calls (report false 3 ∷ []) (1, [], []) refl refl refl

abbrev one_report : ℕ → ℤ → Report ℤ
one_report time total = record {
  uuid = codes "u";
  cpu = record { name = []; cores = pos 2; arch = []; usage = pos 50 };
  ram = record { total = pos 100; used = pos 10 };
  swap = record { total = pos 0; used = pos 0 };
  load = record { load1 = pos 1; load5 = pos 1; load15 = pos 1 };
  disk = record { total = pos 100; used = pos 10 };
  network = record { up = pos 5; down = pos 5; total_up = total; total_down = total };
  connections = record { tcp = pos 3; udp = pos 4 };
  gpu = none;
  mining = none;
  disk_io = [];
  uptime = pos 60;
  process = pos 90;
  message = [];
  method = [];
  updated_at = time;
}

abbrev latest : ℕ → Bytes → Bytes → ℕ → Latest
latest w name uuid before = found (pos 100)

-- Two reports of one time are written one millisecond apart.
stamps :
    map
      (λ r. r.updated_at)
      (prepare
        (λ n. n)
        latest
        0
        []
        (one_report 5 (pos 120) ∷ one_report 5 (pos 130) ∷ [])
        []).reports
    ≡ 5 ∷ (5 + millisecond) ∷ []
unfolding prepare stamp_after restore values_of lookup insert eqb remember
stamps = refl

prepare-Rising_example :
    All
      (mango_hub.Metric.Reports.Order.Later (λ n. n) latest 0 [] [])
      (prepare
        (λ n. n)
        latest
        0
        []
        (one_report 5 (pos 120) ∷ one_report 5 (pos 130) ∷ [])
        []).reports
    × Rising
        (λ n. n)
        latest
        0
        []
        (prepare
          (λ n. n)
          latest
          0
          []
          (one_report 5 (pos 120) ∷ one_report 5 (pos 130) ∷ [])
          []).reports
prepare-Rising_example =
    prepare-Rising (λ n. n) latest 0 [] (one_report 5 (pos 120) ∷ one_report 5 (pos 130) ∷ []) []
      ((λ e. ground arith), ((λ e. ground arith), tt))

abbrev refuse : List (Point ℤ) → ℕ → Option Bytes × ℕ
refuse points n = (some (codes "timeout"), n)

retry-loses_traffic_example :
    (states' : Map TrafficValues) × (write_report_batch
        (λ n. n)
        latest
        (λ n. (none, n))
        (λ n. true)
        refuse
        (one_report 5 (pos 120) ∷ [])
        []
        0
      ≡ (inl (not_written (codes "timeout")), states', 0))
    × ((prepare (λ n. n) latest 0 states' (one_report 5 (pos 120) ∷ []) []).points
        ≡ report_metric_points (λ n. n) (one_report (5 + millisecond) (pos 120)) (pos 0) (pos 0))
unfolding stamp_after restore values_of lookup
retry-loses_traffic_example =
    retry-loses_traffic (λ n. n) latest (λ n. (none, n)) (λ n. true) refuse []
      (one_report 5 (pos 120)) 0 0 0 0 (codes "timeout") (λ e. ground arith) refl refl refl

abbrev day : ℕ
day = 24 * hour

abbrev two_tiers : RollupPolicy ℕ
two_tiers = record {
  raw_retention = pos 0;
  tiers =
      record { interval = pos minute; retention = pos (7 * day) }
      ∷ record { interval = pos (5 * minute); retention = pos (30 * day) }
      ∷ record { interval = pos hour; retention = pos (365 * day) }
      ∷ [];
  compression = 100;
}

-- A metric of ten days needs no tier of an hour.
ten_days :
    (with_metric_retention (pos (10 * day)) two_tiers).tiers
    ≡ record { interval = pos minute; retention = pos (7 * day) }
      ∷ record { interval = pos (5 * minute); retention = pos (10 * day) }
      ∷ []
unfolding with_metric_retention cap_tiers
ten_days = refl

with_metric_retention-valid_example :
    (validate (with_metric_retention (pos (10 * day)) two_tiers) ≡ none)
    × (last_from (pos 0) (with_metric_retention (pos (10 * day)) two_tiers).tiers ≡ pos (10 * day))
unfolding validate
with_metric_retention-valid_example =
    with_metric_retention-valid (pos (10 * day)) (omega arith) two_tiers refl refl
