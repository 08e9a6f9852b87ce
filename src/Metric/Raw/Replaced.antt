-- ===== src/Metric/Raw/Replaced.antt =====
-- What replaceCompressed makes of the samples that are there (pkg/metric/raw_points.go).
use mango_hub.Base.{
  ℕ, zero, suc, ◌+◌, ◌≤◌, ◌≡◌, refl, sym, ap, ◌∙◌, subst, Option, some, List, [], ◌∷◌, arith,
  length, All,
}
use mango_hub.Base.Branch.{if_true, if_false}
use mango_hub.Metric.Raw.{
  RawSample, CompressedRawSamples, no_samples, append_sample, append_samples,
}
use mango_hub.Metric.Raw.Decode.{IsSample, compress, decode-append_samples}
use mango_hub.Metric.Raw.Window.{
  eqb_ℤ, Order, older, same, newer, order, replace_step, replace_loop, replace_decoded,
  replace_compressed,
}
use mango_hub.Metric.Raw.Sorted.{
  IsRising, find, find-cons, find-Above, Above-Above, list_step, merge_list, Says, order-Says,
}
use mango_hub.Metric.Raw.Merged.{IsMerged, merge_list-IsMerged}

merge_list-nil : (f : ℕ) (l : List RawSample) → merge_list (suc f) l [] ≡ l
unfolding merge_list
merge_list-nil f [] = refl
merge_list-nil f (x ∷ l) = refl

replace_step-list :
    (o : Order) (f : ℕ) (s x : RawSample) (l : List RawSample) (c : CompressedRawSamples)
    (later : Option RawSample × CompressedRawSamples)
    → Says o s.timestamp x.timestamp
    → IsRising (x ∷ l)
    → later
      ≡ (find s.timestamp l, append_samples (merge_list (suc f) l (s ∷ [])) (append_sample x c))
    → replace_step o s x l c later ≡ (
      find s.timestamp (x ∷ l),
      append_samples (list_step o (λ l' new'. merge_list (suc f) l' new') x l s []) c,
    )
unfolding append_samples merge_list
replace_step-list older f s x l c later says r e =
    ap (λ o. (o, append_samples (x ∷ l) (append_sample s c)))
      (sym (find-Above s.timestamp (x ∷ l) (says, Above-Above s.timestamp x.timestamp l says r.0)))
replace_step-list same f s x l c later says r e =
    ap (λ o. (o, append_samples l (append_sample s c)))
      (sym (
        find-cons s.timestamp x l
        ∙ if_true (λ o. o ≡ some x) (find s.timestamp l) (eqb_ℤ s.timestamp x.timestamp)
            (ground (arith, says)) refl))
    ∙ ap (λ m. (find s.timestamp (x ∷ l), append_samples m (append_sample s c)))
        (sym (merge_list-nil f l))
replace_step-list newer f s x l c later says r e =
    e
    ∙ ap (λ o. (o, append_samples (merge_list (suc f) l (s ∷ [])) (append_sample x c)))
        (sym (
          find-cons s.timestamp x l
          ∙ if_false (λ o. o ≡ find s.timestamp l) (some x) (eqb_ℤ s.timestamp x.timestamp)
              (ground arith) refl))

replace_loop-merge_list :
    (s : RawSample) (l : List RawSample) (f : ℕ) (c : CompressedRawSamples)
    → length l ≤ f
    → IsRising l
    → replace_loop s l c ≡ (find s.timestamp l, append_samples (merge_list (suc f) l (s ∷ [])) c)
unfolding replace_loop append_samples merge_list find
replace_loop-merge_list s [] f c fuel r = refl
replace_loop-merge_list s (x ∷ l) zero c fuel r = absurd (omega arith)
replace_loop-merge_list s (x ∷ l) (suc f) c fuel r =
    replace_step-list (order s.timestamp x.timestamp) f s x l c _
      (order-Says s.timestamp x.timestamp) r
      (replace_loop-merge_list s l f (append_sample x c) (omega arith) r.1)

-- A sample is put among compressed ones in the order of their times, each time once: the result is
-- never malformed, the old sample of its time is returned, if there was one, and the samples are then
-- those that were there with the new one in its place.
pub replace_compressed-IsMerged :
    (s : RawSample) (l : List RawSample)
    → IsRising l
    → All IsSample l
    → (m : List RawSample) × (replace_compressed s (compress l)
        ≡ some (find s.timestamp l, compress m))
      × IsMerged l (s ∷ []) m
unfolding replace_compressed
replace_compressed-IsMerged s l r valid =
    let fuel : length l + 1 ≡ suc (length l) = omega arith in
    (
      merge_list (suc (length l)) l (s ∷ []),
      ap (replace_decoded s) (decode-append_samples l valid)
          ∙ ap some (replace_loop-merge_list s l (length l) no_samples (omega arith) r),
      subst (λ n. IsMerged l (s ∷ []) (merge_list n l (s ∷ []))) fuel
          (merge_list-IsMerged l (s ∷ []) r (tt, tt)),
    )
