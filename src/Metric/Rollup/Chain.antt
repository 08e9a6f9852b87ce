-- ===== src/Metric/Rollup/Chain.antt =====
-- The conditions of Validate (pkg/metric/rollup.go) on a tier and the one before it.
use mango_hub.Base.{
  ℕ, suc, ◌%◌, ◌<◌, ◌≤◌, ◌≡◌, refl, ◌↔◌, ◌⊎◌, inl, inr, Option, none, some, List, [], ◌∷◌, arith,
}
use native.Mathlib.Nat.{dvd_trans, dvd_refl, mod-eq-zero_of_dvd, dvd_of_mod-eq-zero}
use mango_hub.Base.Int.{ℤ, pos, negsuc, pos_part, neg_part}
use mango_hub.Metric.Rollup.{
  minute, RollupTier, PolicyError, validate_after, validate_tier, first_error, validate_tiers,
}

-- A tier that stands by itself.
abbrev pub Sound : RollupTier → Type 0
Sound t = (0 < pos_part t.interval) × (0 < pos_part t.retention)

-- A tier that may stand behind another one.
abbrev pub Above : RollupTier → RollupTier → Type 0
Above p t =
    (pos_part p.interval < pos_part t.interval)
    × (pos_part t.interval % pos_part p.interval ≡ 0)
    × (pos_part p.retention ≤ pos_part t.retention)

pub one_part : (x : ℤ) → (neg_part x ≡ 0) ⊎ (pos_part x ≡ 0)
one_part (pos n) = inl refl
one_part (negsuc n) = inr refl

validate_tier-Above :
    (i : ℕ) (p t : RollupTier)
    → Sound p
    → (validate_tier i (some p) t ≡ none) ↔ (Sound t × Above p t)
unfolding validate_tier validate_after
validate_tier-Above i p t h =
    let a = one_part p.interval in
    let b = one_part p.retention in
    let c = one_part t.interval in
    let d = one_part t.retention in (λ e. ground arith, λ k. ground arith)

-- The rest of a ladder behind a tier.
abbrev pub Chain : RollupTier → List RollupTier → Type 0
Chain p [] = Unit
Chain p (t ∷ ts) = (Sound t × Above p t) × Chain t ts

pub first_error-none :
    (a b : Option PolicyError) → (first_error a b ≡ none) ↔ ((a ≡ none) × (b ≡ none))
unfolding first_error
first_error-none none b = (λ e. (refl, e), λ h. h.1)
first_error-none (some e) b = (λ h. ground arith, λ h. ground arith)

pub validate_tiers-Chain :
    (i : ℕ) (p : RollupTier) (ts : List RollupTier)
    → Sound p
    → (validate_tiers i (some p) ts ≡ none) ↔ Chain p ts
unfolding validate_tiers
validate_tiers-Chain i p [] h = (λ e. tt, λ c. refl)
validate_tiers-Chain i p (t ∷ ts) h =
    let both = first_error-none (validate_tier i (some p) t) (validate_tiers (suc i) (some t) ts) in
    let here = validate_tier-Above i p t h in
    (
      λ e.
          (let k = here.0 ((both.0 e).0) in
            (k, (validate_tiers-Chain (suc i) t ts k.0).0 ((both.0 e).1))),
      λ c. both.1 (here.1 c.0, (validate_tiers-Chain (suc i) t ts c.0.0).1 c.1),
    )

pub divides_trans : (a b c : ℕ) → b % a ≡ 0 → c % b ≡ 0 → c % a ≡ 0
divides_trans a b c h k =
    mod-eq-zero_of_dvd a (dvd_trans a (dvd_of_mod-eq-zero a h) (dvd_of_mod-eq-zero b k))

pub divides_refl : (a : ℕ) → a % a ≡ 0
divides_refl a = mod-eq-zero_of_dvd a (dvd_refl a)

pub validate_first :
    (i : ℕ) (t : RollupTier)
    → (validate_tier i none t ≡ none) ↔ (Sound t × (pos_part t.interval ≡ minute))
unfolding validate_tier validate_after
validate_first i t =
    let a = one_part t.interval in
    let b = one_part t.retention in (λ e. ground arith, λ k. ground arith)
