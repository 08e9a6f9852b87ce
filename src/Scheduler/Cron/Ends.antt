-- ===== src/Scheduler/Cron/Ends.antt =====
-- The rounds of the loop of parseField (internal/scheduler/scheduler.go), sums that wrap included.
use mango_hub.Base.{
  ℕ, zero, suc, ◌+◌, ◌-◌, ◌*◌, ◌^◌, ◌≤◌, ◌<◌, ◌≡◌, refl, sym, ap, ◌∙◌, subst, inl, inr, ◌∷◌, leb,
  arith, Bool-cases,
}
use mango_hub.Base.Int.{ℤ, pos, negsuc, leb_ℤ}
use mango_hub.Scheduler.Cron.{max_int64, add_int64, fill, fill_rounds}
use mango_hub.Scheduler.Cron.Fill.{fill-done}

module _ (end step : ℕ) (in_field : end ≤ 59) (positive : 1 ≤ step)
    (is_int : step ≤ max_int64) where
  -- More fuel than this gives nothing else.
  abbrev Enough : ℕ → ℤ → Type 0
  Enough fuel i = (more : ℕ) → fuel ≤ more → fill more i end step ≡ fill fuel i end step

  Enough-suc : (fuel : ℕ) (i : ℤ) → Enough fuel (add_int64 i step) → Enough (suc fuel) i
  unfolding fill
  Enough-suc fuel i h zero b = ground arith
  Enough-suc fuel i h (suc more) b = elim (Bool-cases (leb_ℤ i (pos end))) [
    | inl y ↦ rw y (ap (λ l. i ∷ l) (h more (omega arith)))
    | inr n ↦ rw n refl
  ]

  Enough-above : (fuel i : ℕ) → end < i → Enough fuel (pos i)
  Enough-above fuel i b more h = fill-done more i end step b ∙ sym (fill-done fuel i end step b)

  adds : (i : ℕ) → i + step ≤ max_int64 → add_int64 (pos i) step ≡ pos (i + step)
  unfolding add_int64
  adds i h = ground arith

  Enough-inside : (fuel i : ℕ) → end + step ≤ max_int64 → suc end ≤ fuel + i → Enough fuel (pos i)
  Enough-inside zero i h b = Enough-above zero i (omega arith)
  Enough-inside (suc fuel) i h b = elim (Bool-cases (leb i end)) [
    | inr n ↦ Enough-above (suc fuel) i (ground arith)
    | inl y ↦ Enough-suc fuel (pos i) (
        subst (Enough fuel) (sym (adds i (ground arith)))
          (Enough-inside fuel (i + step) h (omega arith)))
  ]

  module _ (large : max_int64 < end + step) where
    wraps :
        (i : ℕ)
        → max_int64 < i + step
        → i ≤ end
        → add_int64 (pos i) step ≡ negsuc (2 ^ 64 - (i + step) - 1)
    unfolding add_int64
    wraps i h b = ground arith

    back_to :
        (i : ℕ)
        → max_int64 < i + step
        → i ≤ end
        → 2 ^ 64 ≤ 2 * step + i
        → add_int64 (negsuc (2 ^ 64 - (i + step) - 1)) step ≡ pos (2 * step + i - 2 ^ 64)
    unfolding add_int64
    back_to i h b c = ground arith

    below :
        (i : ℕ)
        → max_int64 < i + step
        → i ≤ end
        → 2 * step + i < 2 ^ 64
        → add_int64 (negsuc (2 ^ 64 - (i + step) - 1)) step ≡ negsuc (2 ^ 64 - (2 * step + i) - 1)
    unfolding add_int64
    below i h b c = ground arith

    jumps : (m : ℕ) → m ≤ 200 → add_int64 (negsuc m) step ≡ pos (step - suc m)
    unfolding add_int64
    jumps m h = ground arith

    Enough-below : (fuel m : ℕ) → 1 ≤ fuel → m ≤ 200 → Enough fuel (negsuc m)
    Enough-below zero m p h = ground arith
    Enough-below (suc fuel) m p h =
        Enough-suc fuel (negsuc m)
          (subst (Enough fuel) (sym (jumps m h)) (Enough-above fuel (step - suc m) (omega arith)))

    -- Behind a sum that wrapped and one more.
    Enough-twice :
        (fuel i : ℕ)
        → 2 * i + 2 ≤ fuel
        → max_int64 < i + step
        → i ≤ end
        → ((j : ℕ) → 2 * j + 4 ≤ fuel → Enough fuel (pos j))
        → Enough fuel (add_int64 (negsuc (2 ^ 64 - (i + step) - 1)) step)
    Enough-twice fuel i h over b again = elim (Bool-cases (leb (2 ^ 64) (2 * step + i))) [
      | inl y ↦
          subst (Enough fuel) (sym (back_to i over b (ground arith)))
            (again (2 * step + i - 2 ^ 64) (ground arith))
      | inr n ↦
          subst (Enough fuel) (sym (below i over b (ground arith)))
            (Enough-below fuel (2 ^ 64 - (2 * step + i) - 1) (omega arith) (omega arith))
    ]

    Enough-wrapped : (fuel i : ℕ) → 2 * i + 4 ≤ fuel → Enough fuel (pos i)
    Enough-wrapped zero i h = ground arith
    Enough-wrapped (suc zero) i h = ground arith
    Enough-wrapped (suc (suc fuel)) i h = elim (Bool-cases (leb i end)) [
      | inr n ↦ Enough-above (suc (suc fuel)) i (ground arith)
      | inl y ↦ elim (Bool-cases (leb (i + step) max_int64)) [
        | inl small ↦ Enough-suc (suc fuel) (pos i) (
            subst (Enough (suc fuel)) (sym (adds i (ground arith)))
              (Enough-above (suc fuel) (i + step) (omega arith)))
        | inr over ↦ Enough-suc (suc fuel) (pos i) (
            subst (Enough (suc fuel)) (sym (wraps i (ground arith) (ground arith))) (
              Enough-suc fuel (negsuc (2 ^ 64 - (i + step) - 1)) (
                Enough-twice fuel i (omega arith) (ground arith) (ground arith)
                  (λ j k. Enough-wrapped fuel j k))))
      ]
    ]

  -- For a start and an end up to 59 and every positive step that is an int, wrapping sums included,
  -- the loop ends within its 200 rounds: more rounds give no other values.
  pub fill-fill_rounds :
      (start more : ℕ)
      → start ≤ 59
      → fill_rounds ≤ more
      → fill more (pos start) end step ≡ fill fill_rounds (pos start) end step
  fill-fill_rounds start more b h = elim (Bool-cases (leb (end + step) max_int64)) [
    | inl y ↦ Enough-inside fill_rounds start (ground arith) (omega arith) more h
    | inr n ↦ Enough-wrapped (ground arith) fill_rounds start (omega arith) more h
  ]
