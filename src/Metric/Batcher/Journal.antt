-- ===== src/Metric/Batcher/Journal.antt =====
-- The report writer as a first-in, first-out pipe (internal/metricstore/report_batcher.go).
use mango_hub.Base.{
  ℕ, ◌≡◌, refl, sym, ap, ◌∙◌, Bool, true, false, List, [], ◌∷◌, ◌++◌, length, take, drop,
  append-take-drop, ltb,
}
use mathlib.Core.List.{append_assoc, append-nil}
use mango_hub.Base.Branch.{either}
use mango_hub.Metric.Batcher.{
  report_batch_queue_size, Store, Worker, Event, report, ping, ticks, flushes, stops,
  stop_is_served, drain, Enqueued, taken_by, enqueue, enqueue_ping, begin_stop,
  write_pending_reports, write_pending_pings, serve, tick, step, run,
}
use mango_hub.Metric.Batcher.Fifo.{write_batches-log, write_batches-other}
use mango_hub.Metric.Batcher.Noted.{
  Noted, noting, reports-written, reports-failed, reports-kept, pings-written, pings-failed,
  pings-kept, run-without_notes,
}

module _ {A : Type 0} where
  through : (l p q : List A) (n : ℕ) → (l ++ (p ++ take n q)) ++ drop n q ≡ (l ++ p) ++ q
  through l p q n =
      ap (λ x. x ++ drop n q) (sym (append_assoc l p (take n q)))
      ∙ append_assoc (l ++ p) (take n q) (drop n q)
      ∙ ap (λ x. (l ++ p) ++ x) (append-take-drop n q)

module _ {R P W : Type 0} where
  -- What was acknowledged, then the pending slice, then what waits in the channel.
  unfoldable pub report_journal : Worker R P → Noted R P W → List R
  report_journal k w = (w.reports ++ k.pending) ++ k.queue

  unfoldable pub ping_journal : Worker R P → Noted R P W → List P
  ping_journal k w = (w.pings ++ k.pending_pings) ++ k.ping_queue

module _ {R P W E : Type 0} (s : Store R P W E) where
  GrewR : Worker R P → Noted R P W → (List R × List P) × Worker R P × Noted R P W → Type 0
  GrewR k w o = report_journal o.1 o.2 ≡ report_journal k w ++ o.0.0

  GrewP : Worker R P → Noted R P W → (List R × List P) × Worker R P × Noted R P W → Type 0
  GrewP k w o = ping_journal o.1 o.2 ≡ ping_journal k w ++ o.0.1

  pending_reports-log :
      (k : Worker R P) (w : Noted R P W)
      → (let f =
            write_pending_reports
              (noting s)
              (k.pending ++ take report_batch_queue_size k.queue)
              w in
          (f.store.reports ++ f.left) ++ drop report_batch_queue_size k.queue)
        ≡ report_journal k w
  unfolding report_journal write_pending_reports
  pending_reports-log k w =
      ap (λ x. x ++ drop report_batch_queue_size k.queue)
        (write_batches-log (noting s).write_reports (λ w. w.reports)
          (λ xs w w'. reports-written xs w w' _) (λ xs w w'. reports-failed xs w w' _) _ _
          (k.pending ++ take report_batch_queue_size k.queue) w)
      ∙ through (w.reports) k.pending k.queue report_batch_queue_size

  pending_pings-log :
      (k : Worker R P) (w : Noted R P W)
      → (let f =
            write_pending_pings
              (noting s)
              (k.pending_pings ++ take report_batch_queue_size k.ping_queue)
              w in
          (f.store.pings ++ f.left) ++ drop report_batch_queue_size k.ping_queue)
        ≡ ping_journal k w
  unfolding ping_journal write_pending_pings
  pending_pings-log k w =
      ap (λ x. x ++ drop report_batch_queue_size k.ping_queue)
        (write_batches-log (noting s).write_pings (λ w. w.pings)
          (λ xs w w'. pings-written xs w w' _) (λ xs w w'. pings-failed xs w w' _) _ _
          (k.pending_pings ++ take report_batch_queue_size k.ping_queue) w)
      ∙ through (w.pings) k.pending_pings k.ping_queue report_batch_queue_size

  pending_pings-reports :
      (ps : List P) (w : Noted R P W)
      → (write_pending_pings (noting s) ps w).store.reports ≡ w.reports
  unfolding write_pending_pings
  pending_pings-reports ps w =
      write_batches-other (noting s).write_pings (λ w. w.reports)
        (λ xs w w'. reports-kept xs w w' _) _ _ ps w

  pending_reports-pings :
      (rs : List R) (w : Noted R P W)
      → (write_pending_reports (noting s) rs w).store.pings ≡ w.pings
  unfolding write_pending_reports
  pending_reports-pings rs w =
      write_batches-other (noting s).write_reports (λ w. w.pings) (λ xs w w'. pings-kept xs w w' _)
        _ _ rs w

  serve-reports :
      (stop : Bool) (k : Worker R P) (w : Noted R P W)
      → report_journal (serve (noting s) stop k w).1 (serve (noting s) stop k w).2
        ≡ report_journal k w
  unfolding serve drain report_journal
  serve-reports stop k w =
      let f =
        write_pending_reports (noting s) (k.pending ++ take report_batch_queue_size k.queue) w in
      ap (λ l. (l ++ f.left) ++ drop report_batch_queue_size k.queue)
        (pending_pings-reports _ f.store)
      ∙ pending_reports-log k w

  serve-pings :
      (stop : Bool) (k : Worker R P) (w : Noted R P W)
      → ping_journal (serve (noting s) stop k w).1 (serve (noting s) stop k w).2 ≡ ping_journal k w
  unfolding serve drain ping_journal
  serve-pings stop k w =
      pending_pings-log k _
      ∙ ap (λ l. (l ++ k.pending_pings) ++ k.ping_queue) (pending_reports-pings _ w)

  tick-reports :
      (k : Worker R P) (w : Noted R P W)
      → report_journal (tick (noting s) k w).1 (tick (noting s) k w).2 ≡ report_journal k w
  unfolding tick drain report_journal
  tick-reports k w =
      pending_reports-log k _ ∙ ap (λ l. (l ++ k.pending) ++ k.queue) (pending_pings-reports _ w)

  tick-pings :
      (k : Worker R P) (w : Noted R P W)
      → ping_journal (tick (noting s) k w).1 (tick (noting s) k w).2 ≡ ping_journal k w
  unfolding tick drain ping_journal
  tick-pings k w =
      let g =
        write_pending_pings (noting s)
          (k.pending_pings ++ take report_batch_queue_size k.ping_queue) w in
      ap (λ l. (l ++ g.left) ++ drop report_batch_queue_size k.ping_queue)
        (pending_reports-pings _ g.store)
      ∙ pending_pings-log k w

  enqueue-reports :
      (c : Bool) (r : R) (k : Worker R P) (w : Noted R P W)
      → report_journal (enqueue c r k).1 w ≡ report_journal k w ++ taken_by (enqueue c r k).0 r
  unfolding enqueue report_journal taken_by
  enqueue-reports c r k w =
      let same = sym (append-nil (report_journal k w)) in
      let Q = λ (o : Enqueued × Worker R P).
        report_journal o.1 w ≡ report_journal k w ++ taken_by o.0 r in
      either Q k.stopping same (
        either Q c same (
          either Q (ltb (length k.queue) report_batch_queue_size)
            (sym (append_assoc (w.reports ++ k.pending) k.queue (r ∷ []))) same))

  enqueue_ping-pings :
      (c : Bool) (p : P) (k : Worker R P) (w : Noted R P W)
      → ping_journal (enqueue_ping c p k).1 w
        ≡ ping_journal k w ++ taken_by (enqueue_ping c p k).0 p
  unfolding enqueue_ping ping_journal taken_by
  enqueue_ping-pings c p k w =
      let same = sym (append-nil (ping_journal k w)) in
      let Q =
        λ (o : Enqueued × Worker R P). ping_journal o.1 w ≡ ping_journal k w ++ taken_by o.0 p in
      either Q k.stopping same (
        either Q c same (
          either Q (ltb (length k.ping_queue) report_batch_queue_size)
            (sym (append_assoc (w.pings ++ k.pending_pings) k.ping_queue (p ∷ []))) same))

  enqueue-pings :
      (c : Bool) (r : R) (k : Worker R P) (w : Noted R P W)
      → ping_journal (enqueue c r k).1 w ≡ ping_journal k w
  unfolding enqueue ping_journal
  enqueue-pings c r k w =
      let Q = λ (o : Enqueued × Worker R P). ping_journal o.1 w ≡ ping_journal k w in
      either Q k.stopping refl
        (either Q c refl (either Q (ltb (length k.queue) report_batch_queue_size) refl refl))

  enqueue_ping-reports :
      (c : Bool) (p : P) (k : Worker R P) (w : Noted R P W)
      → report_journal (enqueue_ping c p k).1 w ≡ report_journal k w
  unfolding enqueue_ping report_journal
  enqueue_ping-reports c p k w =
      let Q = λ (o : Enqueued × Worker R P). report_journal o.1 w ≡ report_journal k w in
      either Q k.stopping refl
        (either Q c refl (either Q (ltb (length k.ping_queue) report_batch_queue_size) refl refl))

  step-reports :
      (event : Event R P) (k : Worker R P) (w : Noted R P W)
      → report_journal (step (noting s) event k w).1 (step (noting s) event k w).2
        ≡ report_journal k w ++ (step (noting s) event k w).0.0
  unfolding step begin_stop GrewR report_journal
  step-reports (report c r) k w = enqueue-reports c r k w
  step-reports (ping c p) k w = enqueue_ping-reports c p k w ∙ sym (append-nil (report_journal k w))
  step-reports ticks k w =
      either (GrewR k w) k.done (sym (append-nil _)) (tick-reports k w ∙ sym (append-nil _))
  step-reports flushes k w =
      either (GrewR k w) k.done (sym (append-nil _)) (serve-reports false k w ∙ sym (append-nil _))
  step-reports stops k w = sym (append-nil (report_journal k w))
  step-reports stop_is_served k w =
      either (GrewR k w) k.done (sym (append-nil _)) (serve-reports true k w ∙ sym (append-nil _))

  step-pings :
      (event : Event R P) (k : Worker R P) (w : Noted R P W)
      → ping_journal (step (noting s) event k w).1 (step (noting s) event k w).2
        ≡ ping_journal k w ++ (step (noting s) event k w).0.1
  unfolding step begin_stop GrewP ping_journal
  step-pings (report c r) k w = enqueue-pings c r k w ∙ sym (append-nil (ping_journal k w))
  step-pings (ping c p) k w = enqueue_ping-pings c p k w
  step-pings ticks k w =
      either (GrewP k w) k.done (sym (append-nil _)) (tick-pings k w ∙ sym (append-nil _))
  step-pings flushes k w =
      either (GrewP k w) k.done (sym (append-nil _)) (serve-pings false k w ∙ sym (append-nil _))
  step-pings stops k w = sym (append-nil (ping_journal k w))
  step-pings stop_is_served k w =
      either (GrewP k w) k.done (sym (append-nil _)) (serve-pings true k w ∙ sym (append-nil _))

  run-grows :
      (events : List (Event R P)) (k : Worker R P) (w : Noted R P W)
      → (let (given, k', w') = run (noting s) events k w in
          (report_journal k' w' ≡ report_journal k w ++ given.0)
          × (ping_journal k' w' ≡ ping_journal k w ++ given.1))
  unfolding run
  run-grows [] k w = (sym (append-nil _), sym (append-nil _))
  run-grows (event ∷ events) k w =
      let (now, k', w') = step (noting s) event k w in
      let (later, k'', w'') = run (noting s) events k' w' in
      let rest = run-grows events k' w' in
      (
        rest.0
            ∙ ap (λ l. l ++ later.0) (step-reports event k w)
            ∙ append_assoc (report_journal k w) now.0 later.0,
        rest.1
            ∙ ap (λ l. l ++ later.1) (step-pings event k w)
            ∙ append_assoc (ping_journal k w) now.1 later.1,
      )

  -- For any write functions, after any sequence of enqueues, ticks, flushes and stops, with any
  -- cancelled contexts and failed writes: the elements of the batches whose write returned no error, in
  -- the order of the writes, then the pending slice and the channel, are what they were before and
  -- then everything that was accepted since. So everything accepted is acknowledged by one write, in
  -- the order of its acceptance, or still pending or in the channel. What a write that failed has left
  -- in the store is not claimed; its batch is still pending. The notes of the acknowledged batches do
  -- not change the run.
  pub run-journal :
      (events : List (Event R P)) (k : Worker R P) (w : Noted R P W)
      → (let (given, k', w') = run (noting s) events k w in
          (run s events k w.store ≡ (given, k', w'.store))
          × (report_journal k' w' ≡ report_journal k w ++ given.0)
          × (ping_journal k' w' ≡ ping_journal k w ++ given.1))
  run-journal events k w =
      let (reports, pings) = run-grows events k w in
      (sym (run-without_notes s events k w), reports, pings)
