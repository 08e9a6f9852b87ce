-- ===== src/Metric/Batcher/Fifo.antt =====
-- The loop of writePendingReports and writePendingPingRecords (internal/metricstore/report_batcher.go),
-- for any write function.
use mango_hub.Base.{
  ℕ, zero, suc, ◌≤◌, ◌≡◌, refl, ap, ◌∙◌, Bool, true, false, Option, none, some, List, [], ◌∷◌, ◌++◌,
  length, take, drop, append-take-drop, length-drop, ltb, arith, if◌then◌else◌,
}
use mathlib.Core.List.{append_assoc}
use mango_hub.Metric.Batcher.{Flushed, write_rest, write_batches}

module _ {A W E : Type 0} (write : List A → W → Option E × W) where
  module _ (log : W → List A)
      (stored : (xs : List A) (w w' : W) → write xs w ≡ (none, w') → log w' ≡ log w ++ xs)
      (kept : (xs : List A) (w w' : W) (e : E) → write xs w ≡ (some e, w') → log w' ≡ log w) where
    write_rest-log :
        (again : List A → W → Flushed A W E)
        → ((ys : List A) (w : W) → log (again ys w).store ++ (again ys w).left ≡ log w ++ ys)
        → (xs : List A) (size : ℕ) (w : W) (r : Option E × W) → write (take size xs) w ≡ r
        → log (write_rest again xs size r).store ++ (write_rest again xs size r).left ≡ log w ++ xs
    unfolding write_rest
    write_rest-log again h xs size w (some e, w') eq =
        ap (λ l. l ++ xs) (kept (take size xs) w w' e eq)
    write_rest-log again h xs size w (none, w') eq =
        h (drop size xs) w'
        ∙ ap (λ l. l ++ drop size xs) (stored (take size xs) w w' eq)
        ∙ append_assoc (log w) (take size xs) (drop size xs)
        ∙ ap (λ l. log w ++ l) (append-take-drop size xs)

    -- Nothing is lost or written twice, however the writes end.
    pub write_batches-log :
        (fuel limit : ℕ) (xs : List A) (w : W)
        → log (write_batches write fuel limit xs w).store
            ++ (write_batches write fuel limit xs w).left
          ≡ log w ++ xs
    unfolding write_batches
    write_batches-log zero limit [] w = refl
    write_batches-log (suc fuel) limit [] w = refl
    write_batches-log zero limit (x ∷ xs) w = refl
    write_batches-log (suc fuel) limit (x ∷ xs) w =
        write_rest-log (write_batches write fuel limit) (write_batches-log fuel limit) (x ∷ xs) _ w
          _ refl

  module _ {B : Type 0} (other : W → B)
      (kept : (xs : List A) (w w' : W) (o : Option E)
        → write xs w ≡ (o, w')
        → other w' ≡ other w) where
    write_rest-other :
        (again : List A → W → Flushed A W E)
        → ((ys : List A) (w : W) → other (again ys w).store ≡ other w)
        → (xs : List A) (size : ℕ) (w : W) (r : Option E × W) → write (take size xs) w ≡ r
        → other (write_rest again xs size r).store ≡ other w
    unfolding write_rest
    write_rest-other again h xs size w (some e, w') eq = kept (take size xs) w w' (some e) eq
    write_rest-other again h xs size w (none, w') eq =
        h (drop size xs) w' ∙ kept (take size xs) w w' none eq

    pub write_batches-other :
        (fuel limit : ℕ) (xs : List A) (w : W)
        → other (write_batches write fuel limit xs w).store ≡ other w
    unfolding write_batches
    write_batches-other zero limit [] w = refl
    write_batches-other (suc fuel) limit [] w = refl
    write_batches-other zero limit (x ∷ xs) w = refl
    write_batches-other (suc fuel) limit (x ∷ xs) w =
        write_rest-other (write_batches write fuel limit) (write_batches-other fuel limit) (x ∷ xs)
          _ w _ refl

  write_rest-left :
      (again : List A → W → Flushed A W E) (xs : List A) (size : ℕ) (r : Option E × W)
      → ((w : W) → (again (drop size xs) w).error ≡ none → (again (drop size xs) w).left ≡ [])
      → (write_rest again xs size r).error ≡ none
      → (write_rest again xs size r).left ≡ []
  unfolding write_rest
  write_rest-left again xs size (some e, w) h eq = ground arith
  write_rest-left again xs size (none, w) h eq = h w eq

  -- The rounds are enough: without an error nothing is left.
  pub write_batches-left :
      (fuel limit : ℕ) (xs : List A) (w : W)
      → 1 ≤ limit
      → length xs ≤ fuel
      → (write_batches write fuel limit xs w).error ≡ none
      → (write_batches write fuel limit xs w).left ≡ []
  unfolding write_batches
  write_batches-left zero limit [] w p b e = refl
  write_batches-left (suc fuel) limit [] w p b e = refl
  write_batches-left zero limit (x ∷ xs) w p b e = ground arith
  write_batches-left (suc fuel) limit (x ∷ xs) w p b e =
      write_rest-left (write_batches write fuel limit) (x ∷ xs) size (write (take size (x ∷ xs)) w)
        (λ w'.
          write_batches-left fuel limit (drop size (x ∷ xs)) w' p
            (shorter (ltb limit (length (x ∷ xs)))))
        e
    where
      size : ℕ
      size = if ltb limit (length (x ∷ xs)) then limit else length (x ∷ xs)

      shorter : (t : Bool) → length (drop (if t then limit else length (x ∷ xs)) (x ∷ xs)) ≤ fuel
      shorter true = omega (arith, length-drop limit (x ∷ xs))
      shorter false = omega (arith, length-drop (length (x ∷ xs)) (x ∷ xs))
