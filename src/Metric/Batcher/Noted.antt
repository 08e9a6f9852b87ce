-- ===== src/Metric/Batcher/Noted.antt =====
-- Which writes of the report writer returned no error (internal/metricstore/report_batcher.go): the
-- same writes, with a note of each batch that was acknowledged, and what the note leaves as it was.
use mango_hub.Base.{
  ℕ, zero, suc, ◌≡◌, refl, sym, ap, ◌∙◌, ◌≢◌, Bool, true, false, Option, none, some, List, [], ◌∷◌,
  ◌++◌, take, drop, arith, if◌then◌else◌,
}
use mango_hub.Metric.Batcher.{
  report_batch_queue_size, Store, Worker, Event, report, ping, ticks, flushes, stops,
  stop_is_served, Flushed, write_rest, write_batches, drain, write_pending_reports,
  write_pending_pings, serve, tick, step, run,
}

-- The store, and the elements of the batches whose write returned no error, in the order of the
-- writes.
pub record Noted (R P W : Type 0) : Type 0 where
  pub store : W
  pub reports : List R
  pub pings : List P

some_ne_none : {E : Type 0} (e : E) → some e ≢ none
some_ne_none e h = ground arith

module _ {R P W E : Type 0} where
  abbrev note_reports : List R → Noted R P W → Option E × W → Option E × Noted R P W
  note_reports rs w (none, v) = (none, record w { store = v; reports = w.reports ++ rs })
  note_reports rs w (some e, v) = (some e, record w { store = v })

  abbrev note_pings : List P → Noted R P W → Option E × W → Option E × Noted R P W
  note_pings ps w (none, v) = (none, record w { store = v; pings = w.pings ++ ps })
  note_pings ps w (some e, v) = (some e, record w { store = v })

  -- The same writes, which note each batch that is acknowledged.
  abbrev pub noting : Store R P W E → Store R P (Noted R P W) E
  noting s = record {
    write_reports = λ rs w. note_reports rs w (s.write_reports rs w.store);
    write_pings = λ ps w. note_pings ps w (s.write_pings ps w.store);
  }

  pub reports-written :
      (rs : List R) (w w' : Noted R P W) (o : Option E × W)
      → note_reports rs w o ≡ (none, w')
      → w'.reports ≡ w.reports ++ rs
  reports-written rs w w' (none, v) h = ap (λ o. o.1.reports) (sym h)
  reports-written rs w w' (some e, v) h = absurd (some_ne_none e (ap (λ o. o.0) h))

  pub reports-failed :
      (rs : List R) (w w' : Noted R P W) (o : Option E × W) (e : E)
      → note_reports rs w o ≡ (some e, w')
      → w'.reports ≡ w.reports
  reports-failed rs w w' (none, v) e h = absurd (some_ne_none e (sym (ap (λ o. o.0) h)))
  reports-failed rs w w' (some e', v) e h = ap (λ o. o.1.reports) (sym h)

  pub reports-kept :
      (ps : List P) (w w' : Noted R P W) (o : Option E × W) (r : Option E)
      → note_pings ps w o ≡ (r, w')
      → w'.reports ≡ w.reports
  reports-kept ps w w' (none, v) r h = ap (λ o. o.1.reports) (sym h)
  reports-kept ps w w' (some e, v) r h = ap (λ o. o.1.reports) (sym h)

  pub pings-written :
      (ps : List P) (w w' : Noted R P W) (o : Option E × W)
      → note_pings ps w o ≡ (none, w')
      → w'.pings ≡ w.pings ++ ps
  pings-written ps w w' (none, v) h = ap (λ o. o.1.pings) (sym h)
  pings-written ps w w' (some e, v) h = absurd (some_ne_none e (ap (λ o. o.0) h))

  pub pings-failed :
      (ps : List P) (w w' : Noted R P W) (o : Option E × W) (e : E)
      → note_pings ps w o ≡ (some e, w')
      → w'.pings ≡ w.pings
  pings-failed ps w w' (none, v) e h = absurd (some_ne_none e (sym (ap (λ o. o.0) h)))
  pings-failed ps w w' (some e', v) e h = ap (λ o. o.1.pings) (sym h)

  pub pings-kept :
      (rs : List R) (w w' : Noted R P W) (o : Option E × W) (r : Option E)
      → note_reports rs w o ≡ (r, w')
      → w'.pings ≡ w.pings
  pings-kept rs w w' (none, v) r h = ap (λ o. o.1.pings) (sym h)
  pings-kept rs w w' (some e, v) r h = ap (λ o. o.1.pings) (sym h)

-- What is seen of the state of one store in that of another.
abbrev seen : {V W E : Type 0} → (V → W) → Option E × V → Option E × W
seen f (e, v) = (e, f v)

module _ {A V W E : Type 0} (f : V → W) where
  abbrev seen_flushed : Flushed A V E → Flushed A W E
  seen_flushed g = record { error = g.error; left = g.left; store = f g.store }

  module _ (write' : List A → V → Option E × V) (write : List A → W → Option E × W)
      (same : (xs : List A) (v : V) → seen f (write' xs v) ≡ write xs (f v)) where
    write_rest-seen :
        (again' : List A → V → Flushed A V E) (again : List A → W → Flushed A W E)
        → ((ys : List A) (v : V) → seen_flushed (again' ys v) ≡ again ys (f v))
        → (xs : List A) (size : ℕ) (o : Option E × V)
        → seen_flushed (write_rest again' xs size o) ≡ write_rest again xs size (seen f o)
    unfolding write_rest
    write_rest-seen again' again h xs size (some e, v) = refl
    write_rest-seen again' again h xs size (none, v) = h (drop size xs) v

    write_batches-seen :
        (fuel limit : ℕ) (xs : List A) (v : V)
        → seen_flushed (write_batches write' fuel limit xs v)
          ≡ write_batches write fuel limit xs (f v)
    unfolding write_batches
    write_batches-seen zero limit [] v = refl
    write_batches-seen (suc fuel) limit [] v = refl
    write_batches-seen zero limit (x ∷ xs) v = refl
    write_batches-seen (suc fuel) limit (x ∷ xs) v =
        write_rest-seen (write_batches write' fuel limit) (write_batches write fuel limit)
          (write_batches-seen fuel limit) (x ∷ xs) _ _
        ∙ ap (write_rest (write_batches write fuel limit) (x ∷ xs) _) (same _ v)

-- Taking notes changes nothing else: the loop does the same with the store and its worker.
module _ {R P W E : Type 0} (s : Store R P W E) where
  reports-seen :
      (rs : List R) (w : Noted R P W) (o : Option E × W)
      → seen (λ (w : Noted R P W). w.store) (note_reports rs w o) ≡ o
  reports-seen rs w (none, v) = refl
  reports-seen rs w (some e, v) = refl

  pings-seen :
      (ps : List P) (w : Noted R P W) (o : Option E × W)
      → seen (λ (w : Noted R P W). w.store) (note_pings ps w o) ≡ o
  pings-seen ps w (none, v) = refl
  pings-seen ps w (some e, v) = refl

  pending_reports-seen :
      (rs : List R) (w : Noted R P W)
      → seen_flushed (λ (w : Noted R P W). w.store) (write_pending_reports (noting s) rs w)
        ≡ write_pending_reports s rs w.store
  unfolding write_pending_reports
  pending_reports-seen rs w =
      write_batches-seen (λ (w : Noted R P W). w.store) (noting s).write_reports s.write_reports
        (λ xs w. reports-seen xs w _) _ _ rs w

  pending_pings-seen :
      (ps : List P) (w : Noted R P W)
      → seen_flushed (λ (w : Noted R P W). w.store) (write_pending_pings (noting s) ps w)
        ≡ write_pending_pings s ps w.store
  unfolding write_pending_pings
  pending_pings-seen ps w =
      write_batches-seen (λ (w : Noted R P W). w.store) (noting s).write_pings s.write_pings
        (λ xs w. pings-seen xs w _) _ _ ps w

  abbrev pub without_notes : {X : Type 0} → X × Worker R P × Noted R P W → X × Worker R P × W
  without_notes (x, k, w) = (x, k, w.store)

  without_notes_if :
      {X : Type 0} (b : Bool) (x y : X × Worker R P × Noted R P W) (x' y' : X × Worker R P × W)
      → without_notes x ≡ x'
      → without_notes y ≡ y'
      → without_notes (if b then x else y) ≡ (if b then x' else y')
  without_notes_if true x y x' y' h h' = h
  without_notes_if false x y x' y' h h' = h'

  serve-without_notes :
      (stop : Bool) (k : Worker R P) (w : Noted R P W)
      → without_notes (serve (noting s) stop k w) ≡ serve s stop k w.store
  unfolding serve drain
  serve-without_notes stop k w =
      let rs = k.pending ++ take report_batch_queue_size k.queue in
      let ps = k.pending_pings ++ take report_batch_queue_size k.ping_queue in
      let served : Flushed R W E → Flushed P W E → (Option E × Option E) × Worker R P × W = λ f g. (
        (f.error, g.error),
        record k {
          queue = drop report_batch_queue_size k.queue;
          ping_queue = drop report_batch_queue_size k.ping_queue;
          pending = f.left;
          pending_pings = g.left;
          done = stop;
        },
        g.store,
      ) in
      ap
        (served
          (seen_flushed (λ (w : Noted R P W). w.store) (write_pending_reports (noting s) rs w)))
        (pending_pings-seen ps (write_pending_reports (noting s) rs w).store)
      ∙ ap (λ f. served f (write_pending_pings s ps f.store)) (pending_reports-seen rs w)

  tick-without_notes :
      (k : Worker R P) (w : Noted R P W) → without_notes (tick (noting s) k w) ≡ tick s k w.store
  unfolding tick drain
  tick-without_notes k w =
      let rs = k.pending ++ take report_batch_queue_size k.queue in
      let ps = k.pending_pings ++ take report_batch_queue_size k.ping_queue in
      let ticked : Flushed P W E → Flushed R W E → (Option E × Option E) × Worker R P × W = λ g f. (
        (g.error, f.error),
        record k {
          queue = drop report_batch_queue_size k.queue;
          ping_queue = drop report_batch_queue_size k.ping_queue;
          pending = f.left;
          pending_pings = g.left;
        },
        f.store,
      ) in
      ap
        (ticked (seen_flushed (λ (w : Noted R P W). w.store) (write_pending_pings (noting s) ps w)))
        (pending_reports-seen rs (write_pending_pings (noting s) ps w).store)
      ∙ ap (λ g. ticked g (write_pending_reports s rs g.store)) (pending_pings-seen ps w)

  step-without_notes :
      (event : Event R P) (k : Worker R P) (w : Noted R P W)
      → without_notes (step (noting s) event k w) ≡ step s event k w.store
  unfolding step
  step-without_notes (report c r) k w = refl
  step-without_notes (ping c p) k w = refl
  step-without_notes ticks k w =
      without_notes_if k.done _ _ _ _ refl (ap (λ o. (([], []), o.1, o.2)) (tick-without_notes k w))
  step-without_notes flushes k w =
      without_notes_if k.done _ _ _ _ refl
        (ap (λ o. (([], []), o.1, o.2)) (serve-without_notes false k w))
  step-without_notes stops k w = refl
  step-without_notes stop_is_served k w =
      without_notes_if k.done _ _ _ _ refl
        (ap (λ o. (([], []), o.1, o.2)) (serve-without_notes true k w))

  pub run-without_notes :
      (events : List (Event R P)) (k : Worker R P) (w : Noted R P W)
      → without_notes (run (noting s) events k w) ≡ run s events k w.store
  unfolding run
  run-without_notes [] k w = refl
  run-without_notes (event ∷ events) k w =
      let joined : List R × List P
          → (List R × List P) × Worker R P × W
          → (List R × List P) × Worker R P × W =
        λ now o. ((now.0 ++ o.0.0, now.1 ++ o.0.1), o.1, o.2) in
      let o = step (noting s) event k w in
      ap (joined o.0) (run-without_notes events o.1 o.2)
      ∙ ap (λ o. joined o.0 (run s events o.1 o.2)) (step-without_notes event k w)
