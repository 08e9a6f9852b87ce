-- ===== src/Metric/Raw.antt =====
-- Raw samples in memory: compressedRawSamples of pkg/metric/raw_points.go. A value is the 64 bits of
-- its float64, and a list of bytes the slice of data. What a decoder returns until its end is a list;
-- `none` is a malformed encoding. The varints of encoding/binary are written out.
pub mod Codec
pub mod Decode
pub mod Window
pub mod Replaced
pub mod Pruned
pub mod Sorted
pub mod Merged
use mango_hub.Base.{
  ℕ, zero, suc, ◌+◌, ◌-◌, ◌*◌, ◌/◌, ◌%◌, ◌^◌, ◌≡◌, Bool, true, false, ◌||◌, ◌&&◌, not, Option, none,
  some, List, [], ◌∷◌, ◌++◌, length, ltb, leb, ◌==◌, if◌then◌else◌, Bytes,
}
use mango_hub.Base.Int.{ℤ, pos, negsuc, ltb_ℤ, leb_ℤ}

pub record RawSample : Type 0 where
  pub timestamp : ℤ
  pub value : ℕ
  pub label_id : ℕ

pub record CompressedRawSamples : Type 0 where
  pub encoded : Bytes
  pub count : ℕ
  pub last_stamp : ℤ

abbrev pub no_samples : CompressedRawSamples
no_samples = record { encoded = []; count = 0; last_stamp = pos 0 }

-- int64 as uint64, and back.
unfoldable pub bits : ℤ → ℕ
bits (pos n) = n
bits (negsuc n) = 2 ^ 64 - 1 - n

unfoldable pub of_bits : ℕ → ℤ
of_bits u = if ltb u (2 ^ 63) then pos u else negsuc (2 ^ 64 - 1 - u)

-- binary.PutUvarint and Uvarint: seven bits a byte, at most ten bytes.
unfoldable pub put_groups : ℕ → ℕ → Bytes
put_groups zero v = v ∷ []
put_groups (suc f) v =
    let rest = put_groups f (v / 128) in if ltb v 128 then v ∷ [] else (v % 128 + 128) ∷ rest

abbrev pub add_group : ℕ → Option (ℕ × Bytes) → Option (ℕ × Bytes)
add_group b none = none
add_group b (some (v, s)) = some (b - 128 + 128 * v, s)

unfoldable pub get_groups : ℕ → Bytes → Option (ℕ × Bytes)
get_groups zero s = none
get_groups (suc f) [] = none
get_groups (suc f) (b ∷ s) = if ltb b 128 then some (b, s) else add_group b (get_groups f s)

abbrev pub in_word : Option (ℕ × Bytes) → Option (ℕ × Bytes)
in_word none = none
in_word (some (v, s)) = if ltb v (2 ^ 64) then some (v, s) else none

unfoldable pub put_uvarint : ℕ → Bytes
unfolding put_groups
put_uvarint v = put_groups 9 v

unfoldable pub get_uvarint : Bytes → Option (ℕ × Bytes)
unfolding get_groups
get_uvarint s = in_word (get_groups 10 s)

-- binary.PutVarint and Varint: the sign is the lowest bit.
unfoldable pub zigzag : ℤ → ℕ
zigzag (pos n) = 2 * n
zigzag (negsuc n) = 2 * n + 1

unfoldable pub unzigzag : ℕ → ℤ
unzigzag u = if u % 2 == 0 then pos (u / 2) else negsuc (u / 2)

abbrev pub signed_of : Option (ℕ × Bytes) → Option (ℤ × Bytes)
signed_of none = none
signed_of (some (v, s)) = some (unzigzag v, s)

-- binary.LittleEndian, n bytes.
unfoldable pub put_word : ℕ → ℕ → Bytes
put_word zero v = []
put_word (suc n) v = (v % 256) ∷ put_word n (v / 256)

abbrev pub add_low_byte : ℕ → Option (ℕ × Bytes) → Option (ℕ × Bytes)
add_low_byte b none = none
add_low_byte b (some (v, s)) = some (b + 256 * v, s)

unfoldable pub get_word : ℕ → Bytes → Option (ℕ × Bytes)
get_word zero s = some (0, s)
get_word (suc n) [] = none
get_word (suc n) (b ∷ s) = add_low_byte b (get_word n s)

-- uint64(a - b) on int64
unfoldable pub delta_of : ℤ → ℤ → ℕ
unfolding bits
delta_of a b = (bits a + 2 ^ 64 - bits b) % 2 ^ 64

-- previous + int64(delta)
unfoldable pub after_delta : ℤ → ℕ → ℤ
unfolding bits of_bits
after_delta previous delta = of_bits ((bits previous + delta) % 2 ^ 64)

-- appendRawSample
unfoldable pub sample_bytes : RawSample → Bytes
unfolding put_word put_uvarint
sample_bytes s = put_word 8 s.value ++ put_uvarint s.label_id

-- The bytes of a timestamp, by the count: the first in full, a later one by its distance to the last.
unfoldable pub stamp_bytes : ℕ → ℤ → ℤ → Bytes
unfolding put_uvarint zigzag delta_of
stamp_bytes zero last t = put_uvarint (zigzag t)
stamp_bytes (suc n) last t = put_uvarint (delta_of t last)

unfoldable pub append_sample : RawSample → CompressedRawSamples → CompressedRawSamples
unfolding stamp_bytes sample_bytes
append_sample s c = record {
  encoded = c.encoded ++ (stamp_bytes c.count c.last_stamp s.timestamp ++ sample_bytes s);
  count = suc c.count;
  last_stamp = s.timestamp;
}

unfoldable pub append_samples : List RawSample → CompressedRawSamples → CompressedRawSamples
unfolding append_sample
append_samples [] c = c
append_samples (s ∷ samples) c = append_samples samples (append_sample s c)

-- rawSampleDecoder: the bytes that are left, whether one has been read, and its timestamp.
pub record RawSampleDecoder : Type 0 where
  pub rest : Bytes
  pub started : Bool
  pub previous : ℤ

abbrev pub distance_of : ℤ → Option (ℕ × Bytes) → Option (ℤ × Bytes)
distance_of previous none = none
distance_of previous (some (v, s)) = some (after_delta previous v, s)

unfoldable pub next_stamp : RawSampleDecoder → Option (ℤ × Bytes)
unfolding get_uvarint unzigzag after_delta
next_stamp d =
    if d.started
    then distance_of d.previous (get_uvarint d.rest)
    else signed_of (get_uvarint d.rest)

abbrev pub with_label : ℤ → ℕ → Option (ℕ × Bytes) → Option (RawSample × RawSampleDecoder)
with_label t v none = none
with_label t v (some (l, s)) = some (
  record { timestamp = t; value = v; label_id = l % 2 ^ 32 },
  record { rest = s; started = true; previous = t },
)

abbrev pub with_value : ℤ → Option (ℕ × Bytes) → Option (RawSample × RawSampleDecoder)
with_value t none = none
with_value t (some (v, s)) = with_label t v (get_uvarint s)

abbrev pub with_stamp : Option (ℤ × Bytes) → Option (RawSample × RawSampleDecoder)
with_stamp none = none
with_stamp (some (t, s)) = with_value t (get_word 8 s)

-- next, where there is another sample
unfoldable pub next : RawSampleDecoder → Option (RawSample × RawSampleDecoder)
unfolding next_stamp get_word get_uvarint
next d = with_stamp (next_stamp d)

abbrev pub cons_sample : RawSample → Option (List RawSample) → Option (List RawSample)
cons_sample s none = none
cons_sample s (some samples) = some (s ∷ samples)

abbrev pub after_next :
    (RawSampleDecoder → Option (List RawSample))
    → Option (RawSample × RawSampleDecoder)
    → Option (List RawSample)
after_next go none = none
after_next go (some (s, d)) = cons_sample s (go d)

-- The samples until the count is reached.
unfoldable pub read_samples : ℕ → RawSampleDecoder → Option (List RawSample)
unfolding next
read_samples zero d = some []
read_samples (suc n) d = after_next (λ d'. read_samples n d') (next d)

unfoldable pub decode : CompressedRawSamples → Option (List RawSample)
unfolding read_samples
decode c = read_samples c.count (record { rest = c.encoded; started = false; previous = pos 0 })
