-- ===== src/Metric/Batcher/Stop.antt =====
-- The end of the report writer: StopReportBatcher and the requests that come after it
-- (internal/metricstore/report_batcher.go).
use mango_hub.Base.{
  ◌≤◌, ◌<◌, ◌≡◌, refl, sym, ap, ◌∙◌, Bool, true, false, none, List, [], ◌∷◌, ◌++◌, length,
  length-append, drop, length-drop, ltb, ltb→lt, arith,
}
use mathlib.Core.List.{append-nil}
use mango_hub.Base.Branch.{either, either_by, if_true, if_false}
use mango_hub.Metric.Batcher.{
  report_batch_queue_size, Store, Worker, Event, report, ping, ticks, flushes, stops,
  stop_is_served, new_worker, Enqueued, drain, enqueue, enqueue_ping, begin_stop,
  write_pending_reports, write_pending_pings, write_batches, serve, tick, step, run,
}
use mango_hub.Metric.Batcher.Fifo.{write_batches-left}
use mango_hub.Metric.Batcher.Noted.{Noted, noting}
use mango_hub.Metric.Batcher.Journal.{report_journal, ping_journal, run-journal}

module _ {A : Type 0} where
  nil_of_length : (xs : List A) → length xs ≤ 0 → xs ≡ []
  nil_of_length [] h = refl
  nil_of_length (x ∷ xs) h = ground arith

  length-sent :
      (x : A) (q : List A)
      → length q < report_batch_queue_size
      → length (q ++ x ∷ []) ≤ report_batch_queue_size
  length-sent x q h = omega (arith, length-append q (x ∷ []))

  length-waiting :
      (q : List A)
      → length q ≤ report_batch_queue_size
      → length (drop report_batch_queue_size q) ≤ 0
  length-waiting q h = omega (arith, length-drop report_batch_queue_size q)

module _ {R P : Type 0} where
  -- The capacity of the two channels.
  unfoldable Bounded : Worker R P → Type 0
  Bounded k =
      (length k.queue ≤ report_batch_queue_size) × (length k.ping_queue ≤ report_batch_queue_size)

  -- The loop has ended with nothing left, and no more is accepted.
  unfoldable Finished : Worker R P → Type 0
  Finished k =
      ((k.done ≡ true) × (k.stopping ≡ true))
      × ((k.queue ≡ []) × (k.ping_queue ≡ []))
      × ((k.pending ≡ []) × (k.pending_pings ≡ []))

  enqueue-Bounded : (c : Bool) (r : R) (k : Worker R P) → Bounded k → Bounded (enqueue c r k).1
  unfolding enqueue Bounded
  enqueue-Bounded c r k h =
      let Q = λ (o : Enqueued × Worker R P). Bounded o.1 in
      either Q k.stopping h (
        either Q c h (
          either_by Q (ltb (length k.queue) report_batch_queue_size)
            (λ e. (length-sent r k.queue (ltb→lt _ _ e), h.1)) (λ e. h)))

  enqueue_ping-Bounded :
      (c : Bool) (p : P) (k : Worker R P) → Bounded k → Bounded (enqueue_ping c p k).1
  unfolding enqueue_ping Bounded
  enqueue_ping-Bounded c p k h =
      let Q = λ (o : Enqueued × Worker R P). Bounded o.1 in
      either Q k.stopping h (
        either Q c h (
          either_by Q (ltb (length k.ping_queue) report_batch_queue_size)
            (λ e. (h.0, length-sent p k.ping_queue (ltb→lt _ _ e))) (λ e. h)))

module _ {R P W E : Type 0} (s : Store R P W E) where
  serve-Bounded : (stop : Bool) (k : Worker R P) (w : W) → Bounded k → Bounded (serve s stop k w).1
  unfolding serve drain Bounded
  serve-Bounded stop k w h =
      (omega (arith, length-waiting k.queue h.0), omega (arith, length-waiting k.ping_queue h.1))

  tick-Bounded : (k : Worker R P) (w : W) → Bounded k → Bounded (tick s k w).1
  unfolding tick drain Bounded
  tick-Bounded k w h =
      (omega (arith, length-waiting k.queue h.0), omega (arith, length-waiting k.ping_queue h.1))

  step-Bounded :
      (event : Event R P) (k : Worker R P) (w : W) → Bounded k → Bounded (step s event k w).1
  unfolding step begin_stop Bounded
  step-Bounded (report c r) k w h = enqueue-Bounded c r k h
  step-Bounded (ping c p) k w h = enqueue_ping-Bounded c p k h
  step-Bounded ticks k w h =
      either (λ (o : (List R × List P) × Worker R P × W). Bounded o.1) k.done h (tick-Bounded k w h)
  step-Bounded flushes k w h =
      either (λ (o : (List R × List P) × Worker R P × W). Bounded o.1) k.done h
        (serve-Bounded false k w h)
  step-Bounded stops k w h = h
  step-Bounded stop_is_served k w h =
      either (λ (o : (List R × List P) × Worker R P × W). Bounded o.1) k.done h
        (serve-Bounded true k w h)

  run-Bounded :
      (events : List (Event R P)) (k : Worker R P) (w : W)
      → Bounded k
      → Bounded (run s events k w).1
  unfolding run
  run-Bounded [] k w h = h
  run-Bounded (event ∷ events) k w h =
      run-Bounded events (step s event k w).1 (step s event k w).2 (step-Bounded event k w h)

  pending_reports-left :
      (rs : List R) (w : W)
      → (write_pending_reports s rs w).error ≡ none
      → (write_pending_reports s rs w).left ≡ []
  unfolding write_pending_reports write_batches
  pending_reports-left [] w e = refl
  pending_reports-left (r ∷ rs) w e =
      let n = length (r ∷ rs) in
      write_batches-left s.write_reports n n (r ∷ rs) w (omega arith) (omega arith) e

  -- The request to stop, served with no error, leaves nothing behind.
  serve-Finished :
      (k : Worker R P) (w : W)
      → Bounded k
      → k.stopping ≡ true
      → (serve s true k w).0 ≡ (none, none)
      → Finished (serve s true k w).1
  unfolding serve drain Bounded Finished write_pending_reports write_pending_pings
  serve-Finished k w h stopping e = (
    (refl, stopping),
    (
      nil_of_length _ (length-waiting k.queue h.0),
      nil_of_length _ (length-waiting k.ping_queue h.1),
    ),
    (
      pending_reports-left _ w (ap (λ o. o.0) e),
      write_batches-left s.write_pings _ _ _ _ (omega arith) (omega arith) (ap (λ o. o.1) e),
    ),
  )

  step-Finished :
      (event : Event R P) (k : Worker R P) (w : W) → Finished k → Finished (step s event k w).1
  unfolding step begin_stop enqueue enqueue_ping Finished
  step-Finished (report c r) k w h =
      if_true (λ (o : Enqueued × Worker R P). Finished o.1) _ k.stopping h.0.1 h
  step-Finished (ping c p) k w h =
      if_true (λ (o : Enqueued × Worker R P). Finished o.1) _ k.stopping h.0.1 h
  step-Finished ticks k w h =
      if_true (λ (o : (List R × List P) × Worker R P × W). Finished o.1) _ k.done h.0.0 h
  step-Finished flushes k w h =
      if_true (λ (o : (List R × List P) × Worker R P × W). Finished o.1) _ k.done h.0.0 h
  step-Finished stops k w h = ((h.0.0, refl), h.1, h.2)
  step-Finished stop_is_served k w h =
      if_true (λ (o : (List R × List P) × Worker R P × W). Finished o.1) _ k.done h.0.0 h

  run-Finished :
      (events : List (Event R P)) (k : Worker R P) (w : W)
      → Finished k
      → Finished (run s events k w).1
  unfolding run
  run-Finished [] k w h = h
  run-Finished (event ∷ events) k w h =
      run-Finished events (step s event k w).1 (step s event k w).2 (step-Finished event k w h)

  stop_is_served-Finished :
      (k : Worker R P) (w : W)
      → Bounded k
      → k.stopping ≡ true
      → k.done ≡ false
      → (serve s true k w).0 ≡ (none, none)
      → Finished (step s stop_is_served k w).1
  unfolding step
  stop_is_served-Finished k w h stopping running fine =
      if_false (λ (o : (List R × List P) × Worker R P × W). Finished o.1) _ k.done running
        (serve-Finished k w h stopping fine)

  stopped-Finished :
      (events later : List (Event R P)) (k : Worker R P) (w : W)
      → Bounded k
      → (run s events k w).1.stopping ≡ true
      → (run s events k w).1.done ≡ false
      → (serve s true (run s events k w).1 (run s events k w).2).0 ≡ (none, none)
      → Finished (run s (events ++ stop_is_served ∷ later) k w).1
  unfolding run
  stopped-Finished [] later k w h stopping running fine =
      run-Finished later _ _ (stop_is_served-Finished k w h stopping running fine)
  stopped-Finished (event ∷ events) later k w h stopping running fine =
      stopped-Finished events later _ _ (step-Bounded event k w h) stopping running fine

  Finished-reports :
      (k : Worker R P) (w : Noted R P W) → Finished k → report_journal k w ≡ w.reports
  unfolding Finished report_journal
  Finished-reports k w h =
      ap (λ q. (w.reports ++ k.pending) ++ q) h.1.0
      ∙ ap (λ p. (w.reports ++ p) ++ []) h.2.0
      ∙ append-nil (w.reports ++ [])
      ∙ append-nil w.reports

  Finished-pings : (k : Worker R P) (w : Noted R P W) → Finished k → ping_journal k w ≡ w.pings
  unfolding Finished ping_journal
  Finished-pings k w h =
      ap (λ q. (w.pings ++ k.pending_pings) ++ q) h.1.1
      ∙ ap (λ p. (w.pings ++ p) ++ []) h.2.1
      ∙ append-nil (w.pings ++ [])
      ∙ append-nil w.pings

  -- For any write functions and any run of a new worker: when StopReportBatcher has been called, the
  -- loop still runs, and the request to stop is served without an error, then everything that was
  -- accepted since the start, before the request or in whatever is called later, and nothing else, was
  -- in a batch whose write returned no error, in the order of its acceptance. The notes of these
  -- batches do not change the run. What writes that failed before have left in the store is not
  -- claimed.
  pub stop-writes :
      (events later : List (Event R P)) (w : W)
      → (run s events new_worker w).1.stopping ≡ true
      → (run s events new_worker w).1.done ≡ false
      → (serve s true (run s events new_worker w).1 (run s events new_worker w).2).0 ≡ (none, none)
      → (let (given, k, w') =
            run
              (noting s)
              (events ++ stop_is_served ∷ later)
              new_worker
              (record { store = w; reports = []; pings = [] }) in
          (run s (events ++ stop_is_served ∷ later) new_worker w ≡ (given, k, w'.store))
          × (w'.reports ≡ given.0)
          × (w'.pings ≡ given.1))
  unfolding new_worker report_journal ping_journal Bounded
  stop-writes events later w stopping running fine =
      let start : Noted R P W = record { store = w; reports = []; pings = [] } in
      let (given, k, w') = run (noting s) (events ++ stop_is_served ∷ later) new_worker start in
      let (same, reports, pings) =
        run-journal s (events ++ stop_is_served ∷ later) new_worker start in
      let ended : Finished k = rw (ap (λ o. o.1) same) at (
        stopped-Finished events later new_worker w (omega arith, omega arith) stopping running
          fine) in
      (same, sym (Finished-reports k w' ended) ∙ reports, sym (Finished-pings k w' ended) ∙ pings)
