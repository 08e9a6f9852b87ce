-- ===== src/Metric/Rollup/Ladder.antt =====
-- The ladder of a metric, withMetricRetention and Validate of pkg/metric/rollup.go.
use mango_hub.Base.{
  ◌%◌, ◌<◌, ◌≤◌, ◌≡◌, refl, ◌⊎◌, true, false, ◌||◌, not, Option, none, some, List, [], ◌∷◌, arith,
  if◌then◌else◌,
}
use mango_hub.Base.Branch.{elim_by}
use mango_hub.Metric.Rollup.Chain.{
  Sound, Above, Chain, one_part, first_error-none, validate_tiers-Chain, divides_trans,
  divides_refl, validate_first,
}
use mango_hub.Base.Int.{ℤ, pos, pos_part, neg_part, leb_ℤ, ltb_ℤ, ◌≤ℤ◌, eq_of_parts}
use mango_hub.Metric.Rollup.{
  RollupTier, RollupPolicy, is_enabled, cap, is_short, cap_tiers, with_metric_retention,
  PolicyError, raw_retention_negative, validate_tier, validate_tiers, validate,
}

-- The retention of the last of a list of tiers, or the one given.
abbrev pub last_from : ℤ → List RollupTier → ℤ
last_from r [] = r
last_from r (t ∷ ts) = last_from t.retention ts

module _ (limit : ℤ) (positive : 0 < pos_part limit) where
  cap-interval : (t : RollupTier) (ts : List RollupTier) → (cap limit t ts).interval ≡ t.interval
  unfolding cap
  cap-interval t [] = refl
  cap-interval t (u ∷ us) = ground arith

  cap-retention :
      (t : RollupTier) (ts : List RollupTier)
      → 0 < pos_part t.retention
      → (0 < pos_part (cap limit t ts).retention) × ((cap limit t ts).retention ≤ℤ limit)
  unfolding cap
  cap-retention t [] h = (positive, omega arith)
  cap-retention t (u ∷ us) h =
      let a = one_part limit in let b = one_part t.retention in ground arith

  -- The last tier that was kept, while the loop is behind the tier `p`.
  abbrev Kept : RollupTier → RollupTier → Type 0
  Kept k p =
      Sound k
      × (pos_part k.interval ≤ pos_part p.interval)
      × (pos_part p.interval % pos_part k.interval ≡ 0)
      × (k.retention ≤ℤ limit)

  cap-Sound : (t : RollupTier) (ts : List RollupTier) → Sound t → Sound (cap limit t ts)
  cap-Sound t ts s = (rw (cap-interval t ts) s.0, (cap-retention t ts s.1).0)

  cap-Kept-self : (t : RollupTier) (ts : List RollupTier) → Sound t → Kept (cap limit t ts) t
  cap-Kept-self t ts s = (
    cap-Sound t ts s,
    rw (cap-interval t ts) (omega arith),
    rw (cap-interval t ts) (divides_refl (pos_part t.interval)),
    (cap-retention t ts s.1).1,
  )

  -- A tier that is kept behind `k`.
  cap-Kept :
      (k t : RollupTier) (ts : List RollupTier)
      → Sound k
      → pos_part k.interval < pos_part t.interval
      → pos_part t.interval % pos_part k.interval ≡ 0
      → Sound t
      → is_short (some k) (cap limit t ts) ≡ false
      → (Sound (cap limit t ts) × Above k (cap limit t ts)) × Kept (cap limit t ts) t
  unfolding is_short
  cap-Kept k t ts h a d s e = (
    (
      cap-Sound t ts s,
      (
        rw (cap-interval t ts) a,
        rw (cap-interval t ts) d,
        longer (one_part k.retention) (one_part (cap limit t ts).retention),
      ),
    ),
    cap-Kept-self t ts s,
  )
    where
      longer :
          (neg_part k.retention ≡ 0) ⊎ (pos_part k.retention ≡ 0)
          → (neg_part (cap limit t ts).retention ≡ 0) ⊎ (pos_part (cap limit t ts).retention ≡ 0)
          → pos_part k.retention ≤ pos_part (cap limit t ts).retention
      longer a b = ground arith

  cap_tiers-Chain :
      (k p : RollupTier) (ts : List RollupTier)
      → Kept k p
      → Chain p ts
      → Chain k (cap_tiers limit (some k) ts)
  unfolding cap_tiers is_short
  cap_tiers-Chain k p [] h c = tt
  cap_tiers-Chain k p (t ∷ ts) h c =
      elim_by (Chain k) (is_short (some k) (cap limit t ts))
        (λ e. cap_tiers-Chain k t ts (h.0, omega arith, divides_trans _ _ _ h.2 c.0.1.1, h.3) c.1)
        (λ e.
          (let (above, kept) =
              cap-Kept k t ts h.0 (omega arith) (divides_trans _ _ _ h.2 c.0.1.1) c.0.0 e in
            (above, cap_tiers-Chain (cap limit t ts) t ts kept c.1)))

  last_cap : (t : RollupTier) → (cap limit t []).retention ≡ limit
  unfolding cap
  last_cap t = refl

  short_last :
      (k t : RollupTier)
      → k.retention ≤ℤ limit
      → is_short (some k) (cap limit t []) ≡ true
      → k.retention ≡ limit
  unfolding is_short cap
  short_last k t h e = eq_of_parts k.retention limit (ground arith)

  last_from-cap_tiers :
      (k t : RollupTier) (ts : List RollupTier)
      → Sound t
      → Chain t ts
      → k.retention ≤ℤ limit
      → last_from k.retention (cap_tiers limit (some k) (t ∷ ts)) ≡ limit
  unfolding cap_tiers
  last_from-cap_tiers k t [] s c h =
      elim_by (λ out. last_from k.retention out ≡ limit) (is_short (some k) (cap limit t []))
        (λ e. short_last k t h e) (λ e. last_cap t)
  last_from-cap_tiers k t (u ∷ us) s c h =
      elim_by (λ out. last_from k.retention out ≡ limit) (is_short (some k) (cap limit t (u ∷ us)))
        (λ e. last_from-cap_tiers k u us c.0.0 c.1 h)
        (λ e.
          last_from-cap_tiers (cap limit t (u ∷ us)) u us c.0.0 c.1
            (cap-retention t (u ∷ us) s.1).1)

module _ (limit : ℤ) (positive : 0 < pos_part limit) where
  validate-cap_tiers :
      (t : RollupTier) (ts : List RollupTier)
      → validate_tiers 0 none (t ∷ ts) ≡ none
      → validate_tiers 0 none (cap_tiers limit none (t ∷ ts)) ≡ none
  unfolding validate_tiers cap_tiers is_short
  validate-cap_tiers t ts e =
      let both = (first_error-none (validate_tier 0 none t) (validate_tiers 1 (some t) ts)).0 e in
      let (sound, first) = (validate_first 0 t).0 both.0 in
      let kept = cap-Kept-self limit positive t ts sound in
      let chain = (validate_tiers-Chain 1 t ts sound).0 both.1 in
      (first_error-none _ _).1 (
        (validate_first 0 (cap limit t ts)).1 (kept.0, rw (cap-interval limit positive t ts) first),
        (validate_tiers-Chain 1 (cap limit t ts) _ kept.0).1
            (cap_tiers-Chain limit positive (cap limit t ts) t ts kept chain),
      )

  last_from-cap_all :
      (r : ℤ) (t : RollupTier) (ts : List RollupTier)
      → validate_tiers 0 none (t ∷ ts) ≡ none
      → last_from r (cap_tiers limit none (t ∷ ts)) ≡ limit
  unfolding validate_tiers cap_tiers is_short
  last_from-cap_all r t [] e = last_cap limit positive t
  last_from-cap_all r t (u ∷ us) e =
      let both =
        (first_error-none (validate_tier 0 none t) (validate_tiers 1 (some t) (u ∷ us))).0 e in
      let sound = ((validate_first 0 t).0 both.0).0 in
      let chain = (validate_tiers-Chain 1 t (u ∷ us) sound).0 both.1 in
      last_from-cap_tiers limit positive (cap limit t (u ∷ us)) u us chain.0.0 chain.1
        (cap-retention limit positive t (u ∷ us) sound.1).1

  with_metric_retention-enabled :
      {F : Type 0} (p : RollupPolicy F)
      → is_enabled p ≡ true
      → with_metric_retention limit p ≡ record p { tiers = cap_tiers limit none p.tiers }
  unfolding with_metric_retention
  with_metric_retention-enabled p on = rw capped refl
    where
      capped : leb_ℤ limit (pos 0) || not (is_enabled p) ≡ false
      capped = caps (one_part limit)
        where
          caps :
              (neg_part limit ≡ 0) ⊎ (pos_part limit ≡ 0)
              → leb_ℤ limit (pos 0) || not (is_enabled p) ≡ false
          caps a = ground arith

  policy : {F : Type 0} → ℤ → F → List RollupTier → RollupPolicy F
  policy raw c ts = record { raw_retention = raw; tiers = ts; compression = c }

  validate-capped :
      {F : Type 0} (raw : ℤ) (c : F) (ts : List RollupTier)
      → is_enabled (policy raw c ts) ≡ true
      → validate (policy raw c ts) ≡ none
      → (validate (policy raw c (cap_tiers limit none ts)) ≡ none)
        × (last_from raw (cap_tiers limit none ts) ≡ limit)
  unfolding validate is_enabled policy cap_tiers is_short
  validate-capped raw c [] on e = ground arith
  validate-capped raw c (t ∷ ts) on e =
      let (fine, rest) = raw_fine raw _ e in
      (rw fine (validate-cap_tiers t ts rest), last_from-cap_all raw t ts rest)
    where
      raw_fine :
          (raw : ℤ) (o : Option PolicyError)
          → (if ltb_ℤ raw (pos 0) then some raw_retention_negative else o) ≡ none
          → (ltb_ℤ raw (pos 0) ≡ false) × (o ≡ none)
      raw_fine raw o e = ground arith

  -- A policy with tiers that Validate accepts, and a metric that keeps its data for a positive time:
  -- the policy for the metric is one that Validate accepts, and its coarsest tier keeps the data as
  -- long as the metric does.
  pub with_metric_retention-valid :
      {F : Type 0} (p : RollupPolicy F)
      → is_enabled p ≡ true
      → validate p ≡ none
      → (validate (with_metric_retention limit p) ≡ none)
        × (last_from p.raw_retention (with_metric_retention limit p).tiers ≡ limit)
  unfolding policy
  with_metric_retention-valid p on e =
      rw (with_metric_retention-enabled p on)
        (validate-capped p.raw_retention p.compression p.tiers on e)
