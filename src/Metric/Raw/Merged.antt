-- ===== src/Metric/Raw/Merged.antt =====
-- What append makes of the samples that are there and the new ones (pkg/metric/raw_points.go).
use mango_hub.Base.{
  ℕ, zero, suc, ◌+◌, ◌≤◌, ◌≡◌, refl, subst, sym, ap, ◌∙◌, true, Bool-cases, inl, inr, some, List,
  [], ◌∷◌, ◌++◌, arith, length, All, ◌&&◌,
}
use mango_hub.Base.Branch.{if_true, if_false}
use mango_hub.Base.Int.{ℤ, leb_ℤ}
use mango_hub.Metric.Raw.{RawSample, no_samples, append_samples}
use mango_hub.Metric.Raw.Decode.{
  IsSample, compress, count-compress, last_stamp-compress, append_samples-append, last_stamp_of,
  decode-append_samples,
}
use mango_hub.Metric.Raw.Window.{Order, older, same, newer, order, merge_decoded, not_empty, append}
use mango_hub.Metric.Raw.Sorted.{
  ◌<ℤ◌, IsRising, find, or_older, list_step, merge_list, merge_loop-merge_list, Says, order-Says,
  or_older-none, find-merge_list, IsRising-merge_list, last-Above,
}

-- Where every new sample is later, the loop would put them at the end.
step-newer :
    (o : Order) (f : ℕ) (x : RawSample) (l : List RawSample) (n : RawSample) (new : List RawSample)
    → Says o n.timestamp x.timestamp
    → x.timestamp <ℤ n.timestamp
    → list_step o (λ l' new'. merge_list f l' new') x l n new ≡ x ∷ merge_list f l (n ∷ new)
step-newer older f x l n new says h = absurd (omega arith)
step-newer same f x l n new says h = absurd (ground (arith, says))
step-newer newer f x l n new says h = refl

merge_list-append :
    (f : ℕ) (l : List RawSample) (n : RawSample) (new : List RawSample)
    → length l + length (n ∷ new) ≤ f
    → All (λ x. x.timestamp <ℤ n.timestamp) l
    → merge_list f l (n ∷ new) ≡ l ++ n ∷ new
unfolding merge_list
merge_list-append zero l n new fuel h = absurd (omega arith)
merge_list-append (suc f) [] n new fuel h = refl
merge_list-append (suc f) (x ∷ l) n new fuel h =
    step-newer (order n.timestamp x.timestamp) f x l n new (order-Says n.timestamp x.timestamp) h.0
    ∙ ap (λ r. x ∷ r) (merge_list-append f l n new (omega arith) h.1)

-- The samples, each time once, in which a new sample stands for one of the same time.
abbrev pub IsMerged : List RawSample → List RawSample → List RawSample → Type 0
IsMerged l new m = IsRising m × ((t : ℤ) → find t m ≡ or_older (find t new) (find t l))

pub merge_list-IsMerged :
    (l new : List RawSample)
    → IsRising l
    → IsRising new
    → IsMerged l new (merge_list (length l + length new) l new)
merge_list-IsMerged l new a b = (
  IsRising-merge_list (length l + length new) l new a b,
  λ t. find-merge_list t (length l + length new) l new (omega arith) b,
)

-- Whether the loop runs or the new samples only go to the end, the result is the merged list.
append-merge_list :
    (x : RawSample) (l : List RawSample) (n : RawSample) (new : List RawSample)
    → IsRising (x ∷ l)
    → All IsSample (x ∷ l)
    → append (n ∷ new) (compress (x ∷ l))
      ≡ some (compress (merge_list (length (x ∷ l) + length (n ∷ new)) (x ∷ l) (n ∷ new)))
unfolding append
append-merge_list x l n new a valid =
    let c = compress (x ∷ l) in
    let m = merge_list (length (x ∷ l) + length (n ∷ new)) (x ∷ l) (n ∷ new) in
    let full : not_empty c.count ≡ true = ap not_empty (count-compress (x ∷ l)) in
    elim (Bool-cases (leb_ℤ n.timestamp c.last_stamp)) [
      | inl e ↦
          if_true (λ r. r ≡ some (compress m)) _
            (not_empty c.count && leb_ℤ n.timestamp c.last_stamp) (ground (arith, full, e))
            (ap (merge_decoded (n ∷ new)) (decode-append_samples (x ∷ l) valid)
              ∙ ap some (
                  merge_loop-merge_list (length (x ∷ l) + length (n ∷ new)) (x ∷ l) (n ∷ new)
                    no_samples))
      | inr e ↦
          let last : last_stamp_of x.timestamp l <ℤ n.timestamp =
            (let after : c.last_stamp <ℤ n.timestamp = ground (arith, e) in
              subst (λ z. z <ℤ n.timestamp) (last_stamp-compress x l) after) in
          let (first, more) = last-Above x.timestamp l n.timestamp a.0 a.1 last in
          if_false (λ r. r ≡ some (compress m)) _
            (not_empty c.count && leb_ℤ n.timestamp c.last_stamp) (ground (arith, full, e))
            (ap some (
              sym (append_samples-append (x ∷ l) (n ∷ new) no_samples)
              ∙ ap compress (
                  sym (
                    merge_list-append (length (x ∷ l) + length (n ∷ new)) (x ∷ l) n new
                      (omega arith) (first, more)))))
    ]

-- Samples in the order of their times are appended to compressed ones: the result is never
-- malformed, and holds both in the order of their times, each time once and as the new samples have
-- it where both have it.
pub append-IsMerged :
    (l new : List RawSample)
    → IsRising l
    → IsRising new
    → All IsSample l
    → (m : List RawSample) × (append new (compress l) ≡ some (compress m)) × IsMerged l new m
unfolding append
append-IsMerged l [] a b valid = (l, refl, (a, λ t. unfold find in refl))
append-IsMerged [] (n ∷ new) a b valid = (
  n ∷ new,
  unfold append_samples in refl,
  (b, λ t. unfold find in sym (or_older-none (find t (n ∷ new)))),
)
append-IsMerged (x ∷ l) (n ∷ new) a b valid = (
  merge_list (length (x ∷ l) + length (n ∷ new)) (x ∷ l) (n ∷ new),
  append-merge_list x l n new a valid,
  merge_list-IsMerged (x ∷ l) (n ∷ new) a b,
)
