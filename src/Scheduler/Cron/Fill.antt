-- ===== src/Scheduler/Cron/Fill.antt =====
-- The loop of parseField that stores the values of a range (internal/scheduler/scheduler.go).
use mango_hub.Base.{
  ℕ, zero, suc, ◌+◌, ◌-◌, ◌*◌, ◌^◌, ◌≤◌, ◌<◌, ◌≡◌, refl, sym, ap, ◌∙◌, ◌↔◌, inl, inr, true, [], ◌∷◌,
  leb, le→leb, ◌==◌, arith, Bool-cases,
}
use mango_hub.Base.Int.{ℤ, pos, negsuc, leb_ℤ}
use mango_hub.Scheduler.Cron.{max_int64, add_int64, fill, fill_rounds, has_value}

-- n is start + k * step for some k, and not above end.
abbrev pub InSteps : ℕ → ℕ → ℕ → ℕ → Type 0
InSteps start end step n = (k : ℕ) × (start + k * step ≡ n) × (n ≤ end)

fill-next :
    (fuel start end step : ℕ)
    → end + step ≤ max_int64
    → start ≤ end
    → fill (suc fuel) (pos start) end step ≡ pos start ∷ fill fuel (pos (start + step)) end step
unfolding fill add_int64
fill-next fuel start end step h b =
    rw (le→leb (start + 0) (end + 0) (omega arith), le→leb (start + step) max_int64 (omega arith))
      refl

pub fill-done : (fuel start end step : ℕ) → end < start → fill fuel (pos start) end step ≡ []
unfolding fill
fill-done zero start end step b = refl
fill-done (suc fuel) start end step b = ground arith

later : (start end step n : ℕ) → InSteps (start + step) end step n → InSteps start end step n
later start end step n (k, e, b) = (suc k, omega arith, b)

fill-InSteps_next :
    (fuel start end step n : ℕ)
    → start ≤ end
    → has_value (pos start ∷ fill fuel (pos (start + step)) end step) n ≡ true
    → (has_value (fill fuel (pos (start + step)) end step) n ≡ true
        → InSteps (start + step) end step n)
    → InSteps start end step n
unfolding has_value
fill-InSteps_next fuel start end step n b e rest = elim (Bool-cases (start == n)) [
  | inl y ↦ (0, ground arith, ground arith)
  | inr other ↦ later start end step n (rest (ground arith))
]

fill-InSteps :
    (fuel start end step n : ℕ)
    → end + step ≤ max_int64
    → has_value (fill fuel (pos start) end step) n ≡ true
    → InSteps start end step n
unfolding has_value fill
fill-InSteps zero start end step n h e = ground arith
fill-InSteps (suc fuel) start end step n h e = elim (Bool-cases (leb start end)) [
  | inr out ↦
      let none_left =
        sym (ap (λ l. has_value l n) (fill-done (suc fuel) start end step (ground arith))) ∙ e in
      ground arith
  | inl in_range ↦
      let first =
        sym (ap (λ l. has_value l n) (fill-next fuel start end step h (ground arith))) ∙ e in
      fill-InSteps_next fuel start end step n (ground arith) first
        (λ t. fill-InSteps fuel (start + step) end step n h t)
]

InSteps-fill :
    (fuel start end step n k : ℕ)
    → end + step ≤ max_int64
    → 1 ≤ step
    → suc end ≤ fuel + start
    → start + k * step ≡ n
    → n ≤ end
    → has_value (fill fuel (pos start) end step) n ≡ true
unfolding has_value
InSteps-fill zero start end step n k h p f e b = ground arith
InSteps-fill (suc fuel) start end step n zero h p f e b =
    rw (fill-next fuel start end step h (omega arith)) (ground arith)
InSteps-fill (suc fuel) start end step n (suc k) h p f e b =
    rw (fill-next fuel start end step h (omega arith)) (
      ground
        (arith, InSteps-fill fuel (start + step) end step n k h p (omega arith) (omega arith) b))

-- For a step that keeps the loop's sums in the range of int64, the loop stores exactly the values
-- start, start + step, start + 2 * step and so on up to end, all of them in the rounds it is given.
pub has_value-fill :
    (start end step n : ℕ)
    → 1 ≤ step
    → end < fill_rounds
    → end + step ≤ max_int64
    → (has_value (fill fill_rounds (pos start) end step) n ≡ true) ↔ InSteps start end step n
has_value-fill start end step n p b h = (
  fill-InSteps fill_rounds start end step n h,
  λ (k, e, c). InSteps-fill fill_rounds start end step n k h p (omega arith) e c,
)

fill-one :
    (fuel : ℕ) (i : ℤ) (end step : ℕ)
    → leb_ℤ i (pos end) ≡ true
    → fill (suc fuel) i end step ≡ i ∷ fill fuel (add_int64 i step) end step
unfolding fill
fill-one fuel i end step h = rw h refl

module _ (j step : ℕ) (is_step : step + j ≡ 2 ^ 63) (positive : 1 ≤ j) where
  wraps_below : 2 * j ≤ max_int64 → add_int64 (pos (2 * j)) step ≡ negsuc (step - 1)
  unfolding add_int64
  wraps_below h = ground arith

  wraps_to_zero : 1 ≤ step → add_int64 (negsuc (step - 1)) step ≡ pos 0
  unfolding add_int64
  wraps_to_zero h = ground arith

  leaves : add_int64 (pos 0) step ≡ pos step
  unfolding add_int64
  leaves = ground arith

  -- A step so large that the loop's sum wraps around: from 2 * j with the step 2^63 - j the loop
  -- also stores a negative number, and then 0, which is below the range that was asked for.
  pub fill-wraps :
      (end : ℕ)
      → 2 * j ≤ end
      → end < fill_rounds
      → fill fill_rounds (pos (2 * j)) end step ≡ pos (2 * j) ∷ negsuc (step - 1) ∷ pos 0 ∷ []
  fill-wraps end b c =
      fill-one 199 (pos (2 * j)) end step (ground arith)
      ∙ ap (λ l. pos (2 * j) ∷ l)
          (ap (λ i. fill 199 i end step) (wraps_below (omega arith))
            ∙ fill-one 198 (negsuc (step - 1)) end step (ground arith)
            ∙ ap (λ l. negsuc (step - 1) ∷ l)
                (ap (λ i. fill 198 i end step) (wraps_to_zero (omega arith))
                  ∙ fill-one 197 (pos 0) end step (ground arith)
                  ∙ ap (λ l. pos 0 ∷ l)
                      (ap (λ i. fill 197 i end step) leaves
                        ∙ fill-done 197 step end step (omega arith))))
