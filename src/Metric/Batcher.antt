-- ===== src/Metric/Batcher.antt =====
-- The report writer, reportBatchWorker of internal/metricstore/report_batcher.go. A channel is the
-- list of what waits in it; a case of the loop of `run` and an enqueue are each one step, in any
-- order. `R` and `P` are reports and ping records, `W` the state of the store behind, `E` its errors.
pub mod Fifo
pub mod Noted
pub mod Journal
pub mod Stop
use mango_hub.Base.{
  ℕ, zero, suc, ◌+◌, ◌-◌, ◌≡◌, Bool, true, false, Option, none, some, List, [], ◌∷◌, ◌++◌, length,
  take, drop, ltb, ◌==◌, if◌then◌else◌,
}

abbrev pub report_batch_queue_size : ℕ
report_batch_queue_size = 4096

abbrev pub ping_batch_max_records : ℕ
ping_batch_max_records = 512

-- writeReportBatch and writePingRecords as the loop calls them: any functions that give back an
-- error or none. Nothing is assumed of what a write that fails leaves in the store.
pub record Store (R P W E : Type 0) : Type 0 where
  pub write_reports : List R → W → Option E × W
  pub write_pings : List P → W → Option E × W

-- The two channels, the two slices of `run`, and whether it has returned.
pub record Worker (R P : Type 0) : Type 0 where
  pub queue : List R
  pub ping_queue : List P
  pub pending : List R
  pub pending_pings : List P
  pub stopping : Bool
  pub done : Bool

unfoldable pub new_worker : {R P : Type 0} → Worker R P
new_worker = record {
  queue = [];
  ping_queue = [];
  pending = [];
  pending_pings = [];
  stopping = false;
  done = false;
}

-- The result of an enqueue; `cancelled` is the error of its context.
pub data Enqueued : Type 0 where
  accepted stopped cancelled queue_full : Enqueued

pub data Event (R P : Type 0) : Type 0 where
  report : Bool → R → Event R P
  ping : Bool → P → Event R P
  ticks flushes stops stop_is_served : Event R P

-- The result of writing: the error that ended it, what is still pending, the store.
pub record Flushed (A W E : Type 0) : Type 0 where
  pub error : Option E
  pub left : List A
  pub store : W

-- One loop serves writePendingReports, whose batch is the whole slice, and writePendingPingRecords,
-- whose batch is limited. Each round writes at least one element, so as many rounds as elements do.
write_rest :
    {A W E : Type 0} → (List A → W → Flushed A W E) → List A → ℕ → Option E × W → Flushed A W E
write_rest again pending size (some e, w) = record { error = some e; left = pending; store = w }
write_rest again pending size (none, w) = again (drop size pending) w

unfoldable pub write_batches :
    {A W E : Type 0} → (List A → W → Option E × W) → ℕ → ℕ → List A → W → Flushed A W E
unfolding write_rest
write_batches write fuel limit [] w = record { error = none; left = []; store = w }
write_batches write zero limit (x ∷ xs) w = record { error = none; left = x ∷ xs; store = w }
write_batches write (suc fuel) limit (x ∷ xs) w =
    let size = if ltb limit (length (x ∷ xs)) then limit else length (x ∷ xs) in
    write_rest (write_batches write fuel limit) (x ∷ xs) size (write (take size (x ∷ xs)) w)

-- drainReportQueue and drainPingQueue with the limit of `run`: what is taken, and what stays.
unfoldable pub drain : {A : Type 0} → List A → List A × List A
drain queue = (take report_batch_queue_size queue, drop report_batch_queue_size queue)

module _ {R P : Type 0} where
  unfoldable pub enqueue : Bool → R → Worker R P → Enqueued × Worker R P
  enqueue cancelled_context r k =
      if k.stopping
      then (stopped, k)
      else if cancelled_context
      then (cancelled, k)
      else if ltb (length k.queue) report_batch_queue_size
      then (accepted, record k { queue = k.queue ++ r ∷ [] })
      else (queue_full, k)

  unfoldable pub enqueue_ping : Bool → P → Worker R P → Enqueued × Worker R P
  enqueue_ping cancelled_context p k =
      if k.stopping
      then (stopped, k)
      else if cancelled_context
      then (cancelled, k)
      else if ltb (length k.ping_queue) report_batch_queue_size
      then (accepted, record k { ping_queue = k.ping_queue ++ p ∷ [] })
      else (queue_full, k)

  -- The first critical section of StopReportBatcher.
  unfoldable pub begin_stop : Worker R P → Worker R P
  begin_stop k = record k { stopping = true }

unfoldable pub taken_by : {A : Type 0} → Enqueued → A → List A
taken_by accepted x = x ∷ []
taken_by stopped x = []
taken_by cancelled x = []
taken_by queue_full x = []

module _ {R P W E : Type 0} (s : Store R P W E) where
  unfoldable pub write_pending_reports : List R → W → Flushed R W E
  write_pending_reports pending w =
      write_batches s.write_reports (length pending) (length pending) pending w

  unfoldable pub write_pending_pings : List P → W → Flushed P W E
  write_pending_pings pending w =
      write_batches s.write_pings (length pending) ping_batch_max_records pending w

  -- The case of a request: the errors of both writes, which errors.Join joins. A request to stop ends
  -- the loop.
  unfoldable pub serve : Bool → Worker R P → W → (Option E × Option E) × Worker R P × W
  unfolding drain write_pending_reports write_pending_pings
  serve stop k w =
      let (taken, waiting) = drain k.queue in
      let (taken_pings, waiting_pings) = drain k.ping_queue in
      let f = write_pending_reports (k.pending ++ taken) w in
      let g = write_pending_pings (k.pending_pings ++ taken_pings) f.store in
      (
        (f.error, g.error),
        record k {
          queue = waiting;
          ping_queue = waiting_pings;
          pending = f.left;
          pending_pings = g.left;
          done = stop;
        },
        g.store,
      )

  -- The case of the ticker, which writes the pings first; the errors are logged.
  unfoldable pub tick : Worker R P → W → (Option E × Option E) × Worker R P × W
  unfolding drain write_pending_reports write_pending_pings
  tick k w =
      let (taken_pings, waiting_pings) = drain k.ping_queue in
      let g = write_pending_pings (k.pending_pings ++ taken_pings) w in
      let (taken, waiting) = drain k.queue in
      let f = write_pending_reports (k.pending ++ taken) g.store in
      (
        (g.error, f.error),
        record k {
          queue = waiting;
          ping_queue = waiting_pings;
          pending = f.left;
          pending_pings = g.left;
        },
        f.store,
      )

  -- A call of enqueue or enqueuePing with or without a cancelled context, a tick, a request to flush,
  -- StopReportBatcher up to its request, and the request to stop.
  unfoldable pub step : Event R P → Worker R P → W → (List R × List P) × Worker R P × W
  unfolding enqueue enqueue_ping serve tick begin_stop taken_by
  step (report cancelled_context r) k w =
      let (answer, k') = enqueue cancelled_context r k in ((taken_by answer r, []), k', w)
  step (ping cancelled_context p) k w =
      let (answer, k') = enqueue_ping cancelled_context p k in (([], taken_by answer p), k', w)
  step ticks k w = if k.done then (([], []), k, w) else (([], []), (tick k w).1, (tick k w).2)
  step flushes k w =
      if k.done then (([], []), k, w) else (([], []), (serve false k w).1, (serve false k w).2)
  step stops k w = (([], []), begin_stop k, w)
  step stop_is_served k w =
      if k.done then (([], []), k, w) else (([], []), (serve true k w).1, (serve true k w).2)

  -- What a run of steps accepted, and where it ends.
  unfoldable pub run : List (Event R P) → Worker R P → W → (List R × List P) × Worker R P × W
  unfolding step
  run [] k w = (([], []), k, w)
  run (event ∷ events) k w =
      let (now, k', w') = step event k w in
      let (later, k'', w'') = run events k' w' in ((now.0 ++ later.0, now.1 ++ later.1), k'', w'')
