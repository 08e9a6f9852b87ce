-- ===== src/Metric/Raw/Decode.antt =====
-- Samples that are compressed and decoded again (pkg/metric/raw_points.go).
use mango_hub.Base.{
  ℕ, suc, ◌+◌, ◌%◌, ◌^◌, ◌<◌, ◌≡◌, refl, ap, ◌∙◌, true, false, some, List, [], ◌∷◌, ◌++◌, arith,
  length, All, Bytes,
}
use mathlib.Core.List.{append_assoc, append-nil}
use mango_hub.Base.Int.{ℤ, pos}
use mango_hub.Metric.Raw.{
  RawSample, CompressedRawSamples, no_samples, put_uvarint, zigzag, delta_of, put_word,
  sample_bytes, stamp_bytes, append_sample, append_samples, RawSampleDecoder, signed_of,
  distance_of, with_label, with_value, with_stamp, next_stamp, next, cons_sample, after_next,
  read_samples, decode, get_word,
}
use mango_hub.Metric.Raw.Window.{first_stamp, stamp_or_zero}
use mango_hub.Metric.Raw.Codec.{
  get_uvarint-put_uvarint, get_word-put_word_8, IsInt64, unzigzag-zigzag, zigzag-lt,
  after_delta-delta_of, delta_of-lt,
}

-- A sample of the types of its fields: int64, 64 bits, uint32.
abbrev pub IsSample : RawSample → Type 0
IsSample s = IsInt64 s.timestamp × (s.value < 2 ^ 64) × (s.label_id < 2 ^ 32)

-- The bytes of samples behind one with this timestamp, and of samples from the start.
later_bytes : ℤ → List RawSample → Bytes
later_bytes previous [] = []
later_bytes previous (s ∷ l) =
    put_uvarint (delta_of s.timestamp previous) ++ (sample_bytes s ++ later_bytes s.timestamp l)

abbrev pub last_stamp_of : ℤ → List RawSample → ℤ
last_stamp_of t [] = t
last_stamp_of t (s ∷ l) = last_stamp_of s.timestamp l

-- The samples compressed, one after the other.
abbrev pub compress : List RawSample → CompressedRawSamples
compress l = append_samples l no_samples

abbrev behind : CompressedRawSamples → List RawSample → CompressedRawSamples
behind c l = record {
  encoded = c.encoded ++ later_bytes c.last_stamp l;
  count = c.count + length l;
  last_stamp = last_stamp_of c.last_stamp l;
}

same_record :
    {b b' : Bytes} {n n' : ℕ} {t : ℤ}
    → b ≡ b'
    → n ≡ n'
    → ◌≡◌ {A = CompressedRawSamples}
        (record { encoded = b; count = n; last_stamp = t })
        (record { encoded = b'; count = n'; last_stamp = t })
same_record e e' = ground arith

append_samples-behind :
    (l : List RawSample) (b : Bytes) (k : ℕ) (t : ℤ)
    → append_samples l (record { encoded = b; count = suc k; last_stamp = t })
      ≡ behind (record { encoded = b; count = suc k; last_stamp = t }) l
unfolding append_samples append_sample later_bytes stamp_bytes
append_samples-behind [] b k t = ground (arith, append-nil b)
append_samples-behind (s ∷ l) b k t =
    let new = put_uvarint (delta_of s.timestamp t) ++ sample_bytes s in
    append_samples-behind l (b ++ new) (suc k) s.timestamp
    ∙ same_record
        (append_assoc b new (later_bytes s.timestamp l)
          ∙ ap (λ r. b ++ r)
              (append_assoc (put_uvarint (delta_of s.timestamp t)) (sample_bytes s)
                (later_bytes s.timestamp l)))
        (omega arith)

start_bytes : List RawSample → Bytes
start_bytes [] = []
start_bytes (s ∷ l) =
    put_uvarint (zigzag s.timestamp) ++ (sample_bytes s ++ later_bytes s.timestamp l)

compress-start :
    (s : RawSample) (l : List RawSample)
    → compress (s ∷ l) ≡ record {
      encoded = start_bytes (s ∷ l);
      count = suc (length l);
      last_stamp = last_stamp_of s.timestamp l;
    }
unfolding append_samples append_sample stamp_bytes start_bytes
compress-start s l =
    append_samples-behind l (put_uvarint (zigzag s.timestamp) ++ sample_bytes s) 0 s.timestamp
    ∙ same_record
        (append_assoc (put_uvarint (zigzag s.timestamp)) (sample_bytes s)
          (later_bytes s.timestamp l))
        (omega arith)

abbrev left : Bytes → ℤ → RawSampleDecoder
left b t = record { rest = b; started = true; previous = t }

-- The value and the label behind a timestamp that has been read.
with_value-sample :
    (s : RawSample) (more : Bytes)
    → IsSample s
    → with_value s.timestamp (get_word 8 (sample_bytes s ++ more)) ≡ some (s, left more s.timestamp)
unfolding sample_bytes
with_value-sample s more h =
    let small : s.label_id % 2 ^ 32 ≡ s.label_id = omega arith in
    let label = get_uvarint-put_uvarint s.label_id more (omega arith) in
    ap (λ b. with_value s.timestamp (get_word 8 b))
      (append_assoc (put_word 8 s.value) (put_uvarint s.label_id) more)
    ∙ ap (with_value s.timestamp) (get_word-put_word_8 s.value (put_uvarint s.label_id ++ more) h.1)
    ∙ ap (with_label s.timestamp s.value) label
    ∙ ap (λ n. some (record s { label_id = n }, left more s.timestamp)) small

next-later :
    (s : RawSample) (t : ℤ) (more : Bytes)
    → IsInt64 t
    → IsSample s
    → next (left (put_uvarint (delta_of s.timestamp t) ++ (sample_bytes s ++ more)) t)
      ≡ some (s, left more s.timestamp)
unfolding next next_stamp
next-later s t more ht h =
    ap (λ o. with_stamp (distance_of t o))
      (get_uvarint-put_uvarint (delta_of s.timestamp t) (sample_bytes s ++ more)
        (delta_of-lt s.timestamp t))
    ∙ ap (λ z. with_value z (get_word 8 (sample_bytes s ++ more)))
        (after_delta-delta_of s.timestamp t h.0 ht)
    ∙ with_value-sample s more h

next-start :
    (s : RawSample) (more : Bytes)
    → IsSample s
    → next (record {
      rest = put_uvarint (zigzag s.timestamp) ++ (sample_bytes s ++ more);
      started = false;
      previous = pos 0;
    })
      ≡ some (s, left more s.timestamp)
unfolding next next_stamp
next-start s more h =
    ap (λ o. with_stamp (signed_of o))
      (get_uvarint-put_uvarint (zigzag s.timestamp) (sample_bytes s ++ more)
        (zigzag-lt s.timestamp h.0))
    ∙ ap (λ z. with_value z (get_word 8 (sample_bytes s ++ more))) (unzigzag-zigzag s.timestamp)
    ∙ with_value-sample s more h

read-later :
    (l : List RawSample) (t : ℤ)
    → IsInt64 t
    → All IsSample l
    → read_samples (length l) (left (later_bytes t l) t) ≡ some l
unfolding read_samples later_bytes
read-later [] t ht h = refl
read-later (s ∷ l) t ht h =
    ap (after_next (λ d. read_samples (length l) d))
      (next-later s t (later_bytes s.timestamp l) ht h.0)
    ∙ ap (cons_sample s) (read-later l s.timestamp h.0.0 h.1)

-- Samples of any int64 timestamps, in any order, with any 64 bits as values and labels of 32 bits,
-- are decoded exactly as they were appended to an empty store.
pub decode-append_samples :
    (l : List RawSample) → All IsSample l → decode (append_samples l no_samples) ≡ some l
unfolding decode read_samples append_samples start_bytes
decode-append_samples [] h = refl
decode-append_samples (s ∷ l) h =
    ap decode (compress-start s l)
    ∙ ap (after_next (λ d. read_samples (length l) d))
        (next-start s (later_bytes s.timestamp l) h.0)
    ∙ ap (cons_sample s) (read-later l s.timestamp h.0.0 h.1)

pub count-compress : (l : List RawSample) → (compress l).count ≡ length l
unfolding append_samples
count-compress [] = refl
count-compress (s ∷ l) = ap (λ c. c.count) (compress-start s l)

pub last_stamp-compress :
    (s : RawSample) (l : List RawSample)
    → (compress (s ∷ l)).last_stamp ≡ last_stamp_of s.timestamp l
last_stamp-compress s l = ap (λ c. c.last_stamp) (compress-start s l)

pub first_stamp-compress :
    (s : RawSample) (l : List RawSample)
    → IsInt64 s.timestamp
    → first_stamp (compress (s ∷ l)) ≡ s.timestamp
unfolding first_stamp start_bytes
first_stamp-compress s l h =
    ap first_stamp (compress-start s l)
    ∙ ap (λ o. stamp_or_zero (signed_of o))
        (get_uvarint-put_uvarint (zigzag s.timestamp) (sample_bytes s ++ later_bytes s.timestamp l)
          (zigzag-lt s.timestamp h))
    ∙ unzigzag-zigzag s.timestamp

-- Samples after those that are there already.
pub append_samples-append :
    (l m : List RawSample) (c : CompressedRawSamples)
    → append_samples (l ++ m) c ≡ append_samples m (append_samples l c)
unfolding append_samples
append_samples-append [] m c = refl
append_samples-append (s ∷ l) m c = append_samples-append l m (append_sample s c)
