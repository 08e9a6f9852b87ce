-- ===== src/FileManager/Tiling.antt =====
-- Chunks and ranges as parts of a file (web/filemanager/transfer.go, stream_relay.go).
use mango_hub.Base.{
  ℕ, zero, suc, ◌+◌, ◌-◌, ◌*◌, ◌/◌, ◌^◌, ◌≤◌, ◌<◌, ◌≡◌, refl, sym, ap, ◌∙◌, ◌↔◌, ◌⊎◌, inl, inr,
  Bool, true, not, ◌||◌, Option, none, some, [], subst, map, drop, codes, trim_space, Bytes, eqb,
  contains_byte, has_prefix, arith, ltb, leb, ltb→lt, ◌==◌, Bool-cases,
}
use Prim.Native.Nat.{min}
use native.Mathlib.Nat.{le-div_iff_mul-le}
use mango_hub.Base.Branch.{either, either_by, if_true, if_false}
use mango_hub.Base.Int.{ℤ, pos, negsuc, leb_ℤ, ltb_ℤ, ◌≤ℤ◌}
use mango_hub.Scheduler.Cron.{atoi}
use mango_hub.FileManager.Sizes.{
  min_transfer_chunk_size, max_transfer_chunk_size, reduced, next_reduced_transfer_chunk_size,
  wrapped_quotient, upload_chunk_count, ChunkError, invalid_index, Span, session_chunk_size,
  chunk_span, lower_byte, cut_dash, suffix_range, end_range, start_range, dash_range,
  parse_single_byte_range,
}

-- An index is below the number of chunks exactly if its chunk starts within the file.
pub count_iff : (s c i : ℕ) → 1 ≤ c → (i < (s + c - 1) / c) ↔ (i * c < s)
count_iff s c i h = (
  λ k. (let m = (le-div_iff_mul-le {x = suc i} h).0 k in omega (arith, m)),
  λ k. (le-div_iff_mul-le {x = suc i} h).1 (omega arith),
)

module _ (s c : ℕ) (some_byte : 1 ≤ c) (fits : c ≤ max_transfer_chunk_size)
    (small : s + c ≤ 2 ^ 63) where
  upload_chunk_count-pos : 1 ≤ s → upload_chunk_count (pos s) (pos c) ≡ pos ((s + c - 1) / c)
  unfolding upload_chunk_count wrapped_quotient
  upload_chunk_count-pos h =
      if_false (λ r. r ≡ pos ((s + c - 1) / c)) _ (leb_ℤ (pos s) (pos 0) || leb_ℤ (pos c) (pos 0))
        (ground arith)
        (if_true (λ r. r ≡ pos ((s + c - 1) / c)) _ (ltb (s + c - 1) (2 ^ 63)) (ground arith) refl)

  session_chunk_size-pos : session_chunk_size (pos c) ≡ pos c
  session_chunk_size-pos = ground arith

  part : ℕ → Span
  part i = record { offset = i * c; length = min c (s - i * c) }

  -- A chunk that starts within the file is taken.
  chunk_span-part : (i : ℕ) → i * c < s → chunk_span (pos s) (pos c) (pos i) ≡ inr (part i)
  unfolding chunk_span part
  chunk_span-part i h =
      rw (session_chunk_size-pos, upload_chunk_count-pos (omega arith))
        (if_false (λ r. r ≡ inr (part i)) _ (ltb_ℤ (pos max_transfer_chunk_size) (pos c))
          (ground arith)
          (if_false (λ r. r ≡ inr (part i)) _
            (ltb_ℤ (pos i) (pos 0) || leb_ℤ (pos ((s + c - 1) / c)) (pos i))
            (let k = (count_iff s c i some_byte).1 h in ground arith) refl))

  count_stops : (i : ℕ) → s ≤ i * c → leb_ℤ (upload_chunk_count (pos s) (pos c)) (pos i) ≡ true
  unfolding upload_chunk_count
  count_stops i h = elim (Bool-cases (leb 1 s)) [
    | inl y ↦
        rw (upload_chunk_count-pos (ground arith))
          (let k = (count_iff s c i some_byte).0 in ground arith)
    | inr n ↦ rw (upload_chunk_count-none (ground arith)) (ground arith)
  ]
    where
      upload_chunk_count-none : s ≡ 0 → upload_chunk_count (pos s) (pos c) ≡ pos 0
      upload_chunk_count-none z =
          if_true (λ r. r ≡ pos 0) _ (leb_ℤ (pos s) (pos 0) || leb_ℤ (pos c) (pos 0)) (ground arith)
            refl

  chunk_span-past : (i : ℕ) → s ≤ i * c → chunk_span (pos s) (pos c) (pos i) ≡ inl invalid_index
  unfolding chunk_span
  chunk_span-past i h = rw session_chunk_size-pos (
      if_false (λ r. r ≡ inl invalid_index) _ (ltb_ℤ (pos max_transfer_chunk_size) (pos c))
        (ground arith)
        (if_true (λ r. r ≡ inl invalid_index) _
          (ltb_ℤ (pos i) (pos 0) || leb_ℤ (upload_chunk_count (pos s) (pos c)) (pos i))
          (or_true _ _ (count_stops i h)) refl))
    where
      or_true : (a b : Bool) → b ≡ true → (a || b) ≡ true
      or_true a b e = ground arith

  -- What the chunk of an index must be.
  abbrev pub IsTile : ℕ → Span → Type 0
  IsTile i p =
      (p.offset ≡ i * c)
      × (1 ≤ p.length)
      × (p.offset + p.length ≤ s)
      × ((p.offset + p.length ≡ s)
          ⊎ ((q : Span) × (chunk_span (pos s) (pos c) (pos (suc i)) ≡ inr q)
              × (q.offset ≡ p.offset + p.length)))

  part-IsTile : (i : ℕ) → i * c < s → IsTile i (part i)
  unfolding part
  part-IsTile i h = elim (Bool-cases (ltb (suc i * c) s)) [
    | inl y ↦ (
      refl,
      omega (arith, h, some_byte),
      omega (arith, h),
      inr (part (suc i), chunk_span-part (suc i) (ltb→lt (suc i * c) s y), ground arith),
    )
    | inr n ↦ (refl, omega (arith, h, some_byte), omega (arith, h), inl (ground arith))
  ]

  not_both : {a : ChunkError} {b : Span} (r : ChunkError ⊎ Span) → r ≡ inl a → r ≡ inr b → ⊥
  not_both (inl e) h k = ground arith
  not_both (inr p) h k = ground arith

  span_of : ChunkError ⊎ Span → Span → Span
  span_of (inl e) d = d
  span_of (inr p) d = p

  -- A file of `s` bytes in chunks of `c` bytes, between 1 and the maximum, with s + c in the range of
  -- int64. The first chunk of a file that is not empty starts at 0, and every index that is taken has
  -- a chunk that is not empty and lies within the file, and that is either the end of the file or is
  -- followed directly by the chunk of the next index, which is taken too.
  pub chunk_span-IsTile :
      (i : ℕ) (p : Span)
      → 1 ≤ s
      → chunk_span (pos s) (pos c) (pos i) ≡ inr p
      → ((q : Span) × (chunk_span (pos s) (pos c) (pos 0) ≡ inr q) × (q.offset ≡ 0)) × IsTile i p
  unfolding part span_of
  chunk_span-IsTile i p h e = (
    (part 0, chunk_span-part 0 (omega arith), omega arith),
    elim (Bool-cases (ltb (i * c) s)) [
      | inl y ↦
          subst (IsTile i)
            (ap (λ r. span_of r p) (sym (chunk_span-part i (ltb→lt (i * c) s y)) ∙ e))
            (part-IsTile i (ltb→lt (i * c) s y))
      | inr n ↦ absurd (not_both _ (chunk_span-past i (ground arith)) e)
    ],
  )

-- The range that is read of a file of `size` bytes.
Within : ℕ → Option (ℕ × ℕ) → Type 0
Within size none = Unit
Within size (some (start, end)) = (start ≤ end) × (end < size)

suffix_range-Within : (size : ℕ) (o : Option ℤ) → 1 ≤ size → Within size (suffix_range size o)
unfolding suffix_range Within
suffix_range-Within size none h = tt
suffix_range-Within size (some (negsuc n)) h = tt
suffix_range-Within size (some (pos n)) h =
    either_by (Within size) (n == 0) (λ e. tt) (λ e. (ground arith, omega arith))

end_range-Within :
    (size start : ℕ) (o : Option ℤ) → start < size → Within size (end_range size start o)
unfolding end_range Within
end_range-Within size start none h = tt
end_range-Within size start (some (negsuc n)) h = tt
end_range-Within size start (some (pos n)) h =
    either_by (Within size) (ltb n start) (λ e. tt) (λ e. (ground arith, ground arith))

start_range-Within :
    (size : ℕ) (o : Option ℤ) (last : Bytes) → Within size (start_range size o last)
unfolding start_range Within
start_range-Within size none last = tt
start_range-Within size (some (negsuc n)) last = tt
start_range-Within size (some (pos start)) last =
    either_by (Within size) (leb size start) (λ e. tt)
      (λ e.
        either (Within size) (eqb last []) (ground arith, ground arith)
          (end_range-Within size start _ (ground arith)))

dash_range-Within :
    (size : ℕ) (o : Option (Bytes × Bytes)) → 1 ≤ size → Within size (dash_range size o)
unfolding dash_range Within
dash_range-Within size none h = tt
dash_range-Within size (some (first, last)) h =
    either (Within size) (eqb (trim_space first) [])
      (suffix_range-Within size (atoi (trim_space last)) h)
      (start_range-Within size (atoi (trim_space first)) (trim_space last))

none-Within : (size : ℕ) → Within size none
unfolding Within
none-Within size = tt

parse_single_byte_range-Within :
    (value : Bytes) (size : ℕ) → Within size (parse_single_byte_range value (pos size))
unfolding parse_single_byte_range
parse_single_byte_range-Within value zero = none-Within zero
parse_single_byte_range-Within value (suc n) =
    let spec = trim_space (drop 6 value) in
    either (Within (suc n))
      ((suc n == 0) || not (has_prefix (map lower_byte value) (codes "bytes=")))
      (none-Within (suc n))
      (either (Within (suc n)) (eqb spec [] || contains_byte spec b',') (none-Within (suc n))
        (dash_range-Within (suc n) (cut_dash spec) (omega arith)))

-- Whatever the header is: a range that is taken of a file lies within it.
pub parse_single_byte_range-within :
    (value : Bytes) (size : ℤ) (start end : ℕ)
    → parse_single_byte_range value size ≡ some (start, end)
    → (start ≤ end) × (pos (suc end) ≤ℤ size)
unfolding parse_single_byte_range Within
parse_single_byte_range-within value (negsuc n) start end e = ground arith
parse_single_byte_range-within value (pos size) start end e =
    inside (subst (Within size) e (parse_single_byte_range-Within value size))
  where
    inside : (start ≤ end) × (end < size) → (start ≤ end) × (pos (suc end) ≤ℤ pos size)
    inside (a, b) = (a, omega arith)

-- A chunk size that is tried after a failed one is smaller, and not below the minimum.
pub next_reduced_transfer_chunk_size-smaller :
    (failed upper n : ℕ)
    → next_reduced_transfer_chunk_size failed upper ≡ some n
    → (min_transfer_chunk_size ≤ n)
      × (n < failed)
      × ((n ≡ min_transfer_chunk_size) ⊎ (upper ≡ 0) ⊎ (n < upper))
unfolding next_reduced_transfer_chunk_size reduced
next_reduced_transfer_chunk_size-smaller failed upper n e = ground arith
