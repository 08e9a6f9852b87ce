-- ===== src/Metric/Raw/Pruned.antt =====
-- What pruneCompressedRawSamples keeps (pkg/metric/raw_points.go).
use mango_hub.Base.{
  ℕ, ltb→lt, suc, ◌+◌, ◌≡◌, refl, sym, ap, ◌∙◌, subst, true, false, Bool, Option, some, List, [],
  ◌∷◌, arith, length, keep, All, ◌==◌, if◌then◌else◌, ◌||◌, not,
}
use mango_hub.Base.Branch.{either_by}
use mango_hub.Base.Int.{ℤ, ltb_ℤ, leb_ℤ}
use mango_hub.Metric.Raw.{
  RawSample, CompressedRawSamples, no_samples, append_sample, append_samples,
}
use mango_hub.Metric.Raw.Decode.{
  IsSample, compress, count-compress, last_stamp-compress, last_stamp_of, decode-append_samples,
  first_stamp-compress,
}
use mango_hub.Metric.Raw.Window.{first_stamp, prune_loop, prune_decoded, prune_samples}
use mango_hub.Metric.Raw.Sorted.{◌<ℤ◌, Above, IsRising, last-Above}

-- The samples that are not before a time, and how many are.
abbrev pub kept : ℤ → List RawSample → List RawSample
kept before l = keep (λ s. not (ltb_ℤ s.timestamp before)) l

abbrev pub dropped : ℤ → List RawSample → ℕ
dropped before [] = 0
dropped before (s ∷ l) =
    if ltb_ℤ s.timestamp before then suc (dropped before l) else dropped before l

prune_step :
    (before : ℤ) (s : RawSample) (l : List RawSample) (k : ℕ) (c : CompressedRawSamples) (b : Bool)
    → ((k' : ℕ) (c' : CompressedRawSamples)
        → prune_loop before l k' c' ≡ (k' + dropped before l, append_samples (kept before l) c'))
    → prune_loop before l (if b then suc k else k) (if b then c else append_sample s c) ≡ (
      k + (if b then suc (dropped before l) else dropped before l),
      append_samples (if not b then s ∷ kept before l else kept before l) c,
    )
unfolding append_samples
prune_step before s l k c true ih =
    ih (suc k) c ∙ ap (λ n. (n, append_samples (kept before l) c)) (omega arith)
prune_step before s l k c false ih = ih k (append_sample s c)

prune_loop-kept :
    (before : ℤ) (l : List RawSample) (k : ℕ) (c : CompressedRawSamples)
    → prune_loop before l k c ≡ (k + dropped before l, append_samples (kept before l) c)
unfolding prune_loop append_samples
prune_loop-kept before [] k c = ap (λ n. (n, c)) (omega arith)
prune_loop-kept before (s ∷ l) k c =
    prune_step before s l k c (ltb_ℤ s.timestamp before) (prune_loop-kept before l)

kept-whole :
    (before : ℤ) (l : List RawSample)
    → All (λ s. leb_ℤ before s.timestamp ≡ true) l
    → (kept before l ≡ l) × (dropped before l ≡ 0)
kept-whole before [] h = (refl, refl)
kept-whole before (s ∷ l) h =
    let (same, zero_of) = kept-whole before l h.1 in (ground (arith, same), ground (arith, zero_of))

Above-from :
    (before t : ℤ) (l : List RawSample)
    → leb_ℤ before t ≡ true
    → Above t l
    → All (λ s. leb_ℤ before s.timestamp ≡ true) l
Above-from before t [] h a = tt
Above-from before t (s ∷ l) h a = (ground arith, Above-from before t l h a.1)

kept-none :
    (before : ℤ) (l : List RawSample)
    → All (λ s. s.timestamp <ℤ before) l
    → (kept before l ≡ []) × (dropped before l ≡ length l)
kept-none before [] h = (refl, refl)
kept-none before (s ∷ l) h =
    let (same, all_of) = kept-none before l h.1 in (ground (arith, same), ground (arith, all_of))

or_count : (n m : ℕ) (b : Bool) → n ≡ suc m → (n == 0 || b) ≡ true → b ≡ true
or_count n m b e h = ground (arith, e)

compress-nil : compress [] ≡ no_samples
unfolding append_samples
compress-nil = refl

prune_samples-cons :
    (before : ℤ) (s : RawSample) (l : List RawSample)
    → IsRising (s ∷ l)
    → All IsSample (s ∷ l)
    → prune_samples before (compress (s ∷ l))
      ≡ some (dropped before (s ∷ l), compress (kept before (s ∷ l)))
unfolding prune_samples
prune_samples-cons before s l r valid =
    let c = compress (s ∷ l) in
    let Result : Option (ℕ × CompressedRawSamples) → Type 0 =
      λ o. o ≡ some (dropped before (s ∷ l), compress (kept before (s ∷ l))) in
    let none_before : 0 + dropped before (s ∷ l) ≡ dropped before (s ∷ l) = omega arith in
    let count : c.count ≡ suc (length l) = count-compress (s ∷ l) in
    let first : first_stamp c ≡ s.timestamp = first_stamp-compress s l valid.0.0 in
    let last : c.last_stamp ≡ last_stamp_of s.timestamp l = last_stamp-compress s l in
    either_by Result (c.count == 0 || leb_ℤ before (first_stamp c))
      (λ e.
        let from : leb_ℤ before (first_stamp c) ≡ true = or_count _ _ _ count e in
        let (same, none_of) = kept-whole before (s ∷ l) (
          subst (λ z. leb_ℤ before z ≡ true) first from,
          Above-from before s.timestamp l (subst (λ z. leb_ℤ before z ≡ true) first from) r.0,
        ) in
        ap (λ n. some (n, c)) (sym none_of)
        ∙ ap (λ k. some (dropped before (s ∷ l), compress k)) (sym same))
      (λ e.
        either_by Result (ltb_ℤ c.last_stamp before)
          (λ e'.
            let ends : last_stamp_of s.timestamp l <ℤ before =
              (let now : c.last_stamp <ℤ before = ltb→lt _ _ e' in
                subst (λ z. z <ℤ before) last now) in
            let (same, all_of) =
              kept-none before (s ∷ l) (last-Above s.timestamp l before r.0 r.1 ends) in
            ap (λ n. some (n, no_samples)) (count ∙ sym all_of)
            ∙ ap (λ k. some (dropped before (s ∷ l), k)) (sym compress-nil)
            ∙ ap (λ k. some (dropped before (s ∷ l), compress k)) (sym same))
          (λ e'.
            ap (prune_decoded before) (decode-append_samples (s ∷ l) valid)
            ∙ ap some (prune_loop-kept before (s ∷ l) 0 no_samples)
            ∙ ap (λ n. some (n, compress (kept before (s ∷ l)))) none_before))

-- Compressed samples in the order of their times, each time once, are pruned: the result is never
-- malformed, is the compression of exactly the samples that are not before the given time, and comes
-- with the number of the others, also where the first or the last timestamp alone decides.
pub prune_samples-kept :
    (before : ℤ) (l : List RawSample)
    → IsRising l
    → All IsSample l
    → prune_samples before (compress l) ≡ some (dropped before l, compress (kept before l))
unfolding prune_samples append_samples
prune_samples-kept before [] r valid = refl
prune_samples-kept before (s ∷ l) r valid = prune_samples-cons before s l r valid
