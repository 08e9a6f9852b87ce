-- ===== src/Metric/Raw/Codec.antt =====
-- The numbers of the encoding of raw samples read back (pkg/metric/raw_points.go).
use mango_hub.Base.{
  ℕ, zero, suc, ◌*◌, ◌/◌, ◌^◌, ◌<◌, ◌≡◌, inl, inr, refl, ap, ◌∙◌, some, ◌++◌, arith, ltb,
  Bool-cases, Bytes,
}
use mango_hub.Base.Branch.{if_true}
use mango_hub.Base.Int.{ℤ, pos, negsuc}
use mango_hub.Metric.Raw.{
  bits, of_bits, put_groups, get_groups, in_word, put_uvarint, get_uvarint, zigzag, unzigzag,
  put_word, get_word, delta_of, after_delta,
}

-- How many numbers so many groups of seven bits tell apart.
unfoldable pow : ℕ → ℕ
pow zero = 1
pow (suc f) = 128 * pow f

get_groups-put_groups :
    (f v : ℕ) (rest : Bytes)
    → v < 128 * pow f
    → get_groups (suc f) (put_groups f v ++ rest) ≡ some (v, rest)
unfolding get_groups put_groups pow
get_groups-put_groups zero v rest h = ground arith
get_groups-put_groups (suc f) v rest h = elim (Bool-cases (ltb v 128)) [
  | inl e ↦ ground arith
  | inr e ↦ let ih = get_groups-put_groups f (v / 128) rest (omega arith) in ground (arith, ih)
]

pub get_uvarint-put_uvarint :
    (v : ℕ) (rest : Bytes) → v < 2 ^ 64 → get_uvarint (put_uvarint v ++ rest) ≡ some (v, rest)
unfolding get_uvarint put_uvarint pow
get_uvarint-put_uvarint v rest h =
    ap in_word (get_groups-put_groups 9 v rest (omega arith))
    ∙ if_true (λ o. o ≡ some (v, rest)) _ (ltb v (2 ^ 64)) (ground arith) refl

bytes : ℕ → ℕ
bytes zero = 1
bytes (suc n) = 256 * bytes n

get_word-put_word :
    (n v : ℕ) (rest : Bytes) → v < bytes n → get_word n (put_word n v ++ rest) ≡ some (v, rest)
unfolding get_word put_word bytes
get_word-put_word zero v rest h = ground arith
get_word-put_word (suc n) v rest h =
    let ih = get_word-put_word n (v / 256) rest (omega arith) in ground (arith, ih)

pub get_word-put_word_8 :
    (v : ℕ) (rest : Bytes) → v < 2 ^ 64 → get_word 8 (put_word 8 v ++ rest) ≡ some (v, rest)
unfolding bytes
get_word-put_word_8 v rest h = get_word-put_word 8 v rest (omega arith)

-- The range of int64.
abbrev pub IsInt64 : ℤ → Type 0
IsInt64 (pos n) = n < 2 ^ 63
IsInt64 (negsuc n) = n < 2 ^ 63

pub unzigzag-zigzag : (t : ℤ) → unzigzag (zigzag t) ≡ t
unfolding unzigzag zigzag
unzigzag-zigzag (pos n) = ground arith
unzigzag-zigzag (negsuc n) = ground arith

pub zigzag-lt : (t : ℤ) → IsInt64 t → zigzag t < 2 ^ 64
unfolding zigzag
zigzag-lt (pos n) h = omega arith
zigzag-lt (negsuc n) h = omega arith

pub after_delta-delta_of :
    (t last : ℤ) → IsInt64 t → IsInt64 last → after_delta last (delta_of t last) ≡ t
unfolding after_delta delta_of bits of_bits
after_delta-delta_of (pos n) (pos m) h g = ground arith
after_delta-delta_of (pos n) (negsuc m) h g = ground arith
after_delta-delta_of (negsuc n) (pos m) h g = ground arith
after_delta-delta_of (negsuc n) (negsuc m) h g = ground arith

pub delta_of-lt : (t last : ℤ) → delta_of t last < 2 ^ 64
unfolding delta_of
delta_of-lt t last = omega arith
