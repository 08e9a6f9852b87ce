-- ===== src/Metric/Raw/Window.antt =====
-- The window of raw samples: pruning, replacing and appending on compressedRawSamples
-- (pkg/metric/raw_points.go). A loop over a decoder is a loop over the samples that it returns.
use mango_hub.Base.{
  ℕ, zero, suc, ◌+◌, Bool, true, false, ◌||◌, ◌&&◌, Option, none, some, List, [], ◌∷◌, length, ◌==◌,
  if◌then◌else◌, Bytes,
}
use mango_hub.Base.Int.{ℤ, pos, pos_part, neg_part, ltb_ℤ, leb_ℤ}
use mango_hub.Metric.Raw.{
  RawSample, CompressedRawSamples, no_samples, get_uvarint, signed_of, append_sample,
  append_samples, decode,
}

abbrev pub eqb_ℤ : ℤ → ℤ → Bool
eqb_ℤ a b = (pos_part a + neg_part b) == (pos_part b + neg_part a)

-- firstStamp; a malformed varint is read as 0.
abbrev pub stamp_or_zero : Option (ℤ × Bytes) → ℤ
stamp_or_zero none = pos 0
stamp_or_zero (some (t, s)) = t

unfoldable pub first_stamp : CompressedRawSamples → ℤ
unfolding get_uvarint
first_stamp c = stamp_or_zero (signed_of (get_uvarint c.encoded))

-- The loop of pruneCompressedRawSamples: how many are dropped, and what is kept.
unfoldable pub prune_loop : ℤ → List RawSample → ℕ → CompressedRawSamples → ℕ × CompressedRawSamples
unfolding append_sample
prune_loop before [] deleted kept = (deleted, kept)
prune_loop before (s ∷ l) deleted kept =
    prune_loop before l (if ltb_ℤ s.timestamp before then suc deleted else deleted)
      (if ltb_ℤ s.timestamp before then kept else append_sample s kept)

abbrev pub prune_decoded : ℤ → Option (List RawSample) → Option (ℕ × CompressedRawSamples)
prune_decoded before none = none
prune_decoded before (some l) = some (prune_loop before l 0 no_samples)

unfoldable pub prune_samples : ℤ → CompressedRawSamples → Option (ℕ × CompressedRawSamples)
unfolding first_stamp decode prune_loop
prune_samples before c =
    if c.count == 0 || leb_ℤ before (first_stamp c)
    then some (0, c)
    else if ltb_ℤ c.last_stamp before
    then some (c.count, no_samples)
    else prune_decoded before (decode c)

-- The cases of the loops, by the timestamps of a new sample and one that is there.
pub data Order : Type 0 where
  older : Order
  same : Order
  newer : Order

unfoldable pub order : ℤ → ℤ → Order
order n x = if ltb_ℤ n x then older else if eqb_ℤ n x then same else newer

-- The rest of the loop of replaceCompressed once the sample is put in, and `later` before that.
abbrev pub replace_step :
    Order
    → RawSample
    → RawSample
    → List RawSample
    → CompressedRawSamples
    → Option RawSample × CompressedRawSamples
    → Option RawSample × CompressedRawSamples
replace_step older s x l encoded later = (none, append_samples (x ∷ l) (append_sample s encoded))
replace_step same s x l encoded later = (some x, append_samples l (append_sample s encoded))
replace_step newer s x l encoded later = later

unfoldable pub replace_loop :
    RawSample → List RawSample → CompressedRawSamples → Option RawSample × CompressedRawSamples
unfolding append_sample append_samples order
replace_loop s [] encoded = (none, append_sample s encoded)
replace_loop s (x ∷ l) encoded =
    replace_step (order s.timestamp x.timestamp) s x l encoded
      (replace_loop s l (append_sample x encoded))

abbrev pub replace_decoded :
    RawSample → Option (List RawSample) → Option (Option RawSample × CompressedRawSamples)
replace_decoded s none = none
replace_decoded s (some l) = some (replace_loop s l no_samples)

unfoldable pub replace_compressed :
    RawSample → CompressedRawSamples → Option (Option RawSample × CompressedRawSamples)
unfolding decode replace_loop
replace_compressed s c = replace_decoded s (decode c)

abbrev pub merge_step :
    Order
    → (List RawSample → List RawSample → CompressedRawSamples → CompressedRawSamples)
    → RawSample
    → List RawSample
    → RawSample
    → List RawSample
    → CompressedRawSamples
    → CompressedRawSamples
merge_step older go x l n new merged = go (x ∷ l) new (append_sample n merged)
merge_step same go x l n new merged = go l new (append_sample n merged)
merge_step newer go x l n new merged = go l (n ∷ new) (append_sample x merged)

-- The loop, on as many rounds as there are samples: each takes one at least.
unfoldable pub merge_loop :
    ℕ → List RawSample → List RawSample → CompressedRawSamples → CompressedRawSamples
unfolding append_sample append_samples order
merge_loop zero l new merged = merged
merge_loop (suc f) [] new merged = append_samples new merged
merge_loop (suc f) (x ∷ l) [] merged = append_samples (x ∷ l) merged
merge_loop (suc f) (x ∷ l) (n ∷ new) merged =
    merge_step (order n.timestamp x.timestamp) (λ l' new' m. merge_loop f l' new' m) x l n new
      merged

abbrev pub merge_decoded : List RawSample → Option (List RawSample) → Option CompressedRawSamples
merge_decoded new none = none
merge_decoded new (some l) = some (merge_loop (length l + length new) l new no_samples)

abbrev pub not_empty : ℕ → Bool
not_empty zero = false
not_empty (suc n) = true

-- append
unfoldable pub append : List RawSample → CompressedRawSamples → Option CompressedRawSamples
unfolding decode merge_loop append_samples
append [] c = some c
append (n ∷ new) c =
    if not_empty c.count && leb_ℤ n.timestamp c.last_stamp
    then merge_decoded (n ∷ new) (decode c)
    else some (append_samples (n ∷ new) c)
