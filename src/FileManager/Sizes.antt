-- ===== src/FileManager/Sizes.antt =====
-- The arithmetic of transfers: chunk sizes, chunk indexes and byte ranges, in
-- web/filemanager/transfer.go and stream_relay.go.
use mango_hub.Base.{
  ℕ, ◌+◌, ◌-◌, ◌*◌, ◌/◌, ◌^◌, not, ◌&&◌, ◌||◌, Option, none, some, [], ◌∷◌, Bytes, codes, eqb,
  contains_byte, has_prefix, trim_space, map, drop, ltb, leb, ◌==◌, if◌then◌else◌, ◌⊎◌, inl, inr,
}
use Prim.Native.Nat.{min}
use mango_hub.Base.Assoc.{Map, lookup, insert}
use mango_hub.Base.Int.{ℤ, pos, negsuc, pos_part, sub_ℕ, leb_ℤ, ltb_ℤ}
use mango_hub.Scheduler.Cron.{atoi}

abbrev pub mib : ℕ
mib = 2 ^ 20

abbrev pub default_transfer_chunk_size : ℕ
default_transfer_chunk_size = 25 * mib

abbrev pub min_transfer_chunk_size : ℕ
min_transfer_chunk_size = mib

abbrev pub max_transfer_chunk_size : ℕ
max_transfer_chunk_size = 128 * mib

-- The size that was learned for an agent, 0 if none was.
abbrev pub learned : Option ℕ → ℕ
learned none = 0
learned (some n) = n

unfoldable pub cached_download_chunk_size : Bytes → Map ℕ → ℕ
cached_download_chunk_size uuid sizes =
    if eqb uuid []
    then default_transfer_chunk_size
    else (let size = learned (lookup uuid sizes) in
        if ltb size min_transfer_chunk_size || ltb max_transfer_chunk_size size
        then default_transfer_chunk_size
        else size)

unfoldable pub remember_download_chunk_size : Bytes → ℤ → Map ℕ → Map ℕ
remember_download_chunk_size uuid (negsuc n) sizes = sizes
remember_download_chunk_size uuid (pos size) sizes =
    if eqb uuid [] || ltb size min_transfer_chunk_size || ltb max_transfer_chunk_size size
    then sizes
    else if leb min_transfer_chunk_size (learned (lookup uuid sizes))
        && ltb (learned (lookup uuid sizes)) size
    then sizes
    else insert uuid size sizes

-- The value of a query of a download, within the limits.
at_most : ℕ → Option ℤ → ℕ
at_most size none = size
at_most size (some (negsuc n)) = size
at_most size (some (pos n)) =
    if leb min_transfer_chunk_size n && leb n max_transfer_chunk_size then min size n else size

-- downloadChunkSizeForRequest, with the query "chunk_size".
unfoldable pub download_chunk_size_for_request : Bytes → Bytes → Map ℕ → ℕ
unfolding at_most
download_chunk_size_for_request query uuid sizes =
    if eqb (trim_space query) []
    then cached_download_chunk_size uuid sizes
    else at_most (cached_download_chunk_size uuid sizes) (atoi (trim_space query))

-- nextReducedTransferChunkSize, of a failed size and an upper bound that are not negative.
unfoldable pub reduced : ℕ → ℕ → Option ℕ
reduced failed candidate =
    let aligned = candidate / min_transfer_chunk_size * min_transfer_chunk_size in
    let raised = if ltb aligned min_transfer_chunk_size then min_transfer_chunk_size else aligned in
    let below = if leb failed raised then failed - 1 else raised in
    if ltb below min_transfer_chunk_size then none else some below

unfoldable pub next_reduced_transfer_chunk_size : ℕ → ℕ → Option ℕ
unfolding reduced
next_reduced_transfer_chunk_size failed upper =
    if leb failed min_transfer_chunk_size
    then none
    else (let high = if ltb 0 upper && ltb upper failed then upper else failed in
        if leb high min_transfer_chunk_size
        then some min_transfer_chunk_size
        else reduced failed (min_transfer_chunk_size + (high - min_transfer_chunk_size) / 2))

-- The quotient of an int64 that may have wrapped, rounded towards 0.
unfoldable pub wrapped_quotient : ℕ → ℕ → ℤ
wrapped_quotient n d = if ltb n (2 ^ 63) then pos (n / d) else sub_ℕ 0 ((2 ^ 64 - n) / d)

unfoldable pub upload_chunk_count : ℤ → ℤ → ℤ
unfolding wrapped_quotient
upload_chunk_count size chunk =
    if leb_ℤ size (pos 0) || leb_ℤ chunk (pos 0)
    then pos 0
    else wrapped_quotient (pos_part size + pos_part chunk - 1) (pos_part chunk)

pub data ChunkError : Type 0 where
  size_exceeds_maximum invalid_index : ChunkError

pub record Span : Type 0 where
  pub offset : ℕ
  pub length : ℕ

-- The chunk size of a session.
abbrev pub session_chunk_size : ℤ → ℤ
session_chunk_size chunk = if leb_ℤ chunk (pos 0) then pos default_transfer_chunk_size else chunk

-- The part of the file that uploadRemoteChunk takes for an index. Where it is taken, the index is
-- below the count, and no product or difference leaves the range from 0 to the size.
unfoldable pub chunk_span : ℤ → ℤ → ℤ → ChunkError ⊎ Span
chunk_span size chunk index =
    if ltb_ℤ (pos max_transfer_chunk_size) (session_chunk_size chunk)
    then inl size_exceeds_maximum
    else if ltb_ℤ index (pos 0) || leb_ℤ (upload_chunk_count size (session_chunk_size chunk)) index
    then inl invalid_index
    else (let offset = pos_part index * pos_part (session_chunk_size chunk) in
        inr (record {
          offset = offset;
          length = min (pos_part (session_chunk_size chunk)) (pos_part size - offset);
        }))

-- A byte in lower case; no letter outside ASCII has a lower case in "bytes=".
unfoldable pub lower_byte : ℕ → ℕ
lower_byte b = if leb b'A' b && leb b b'Z' then b + 32 else b

-- strings.SplitN(spec, "-", 2), if it has two parts.
unfoldable pub cut_dash : Bytes → Option (Bytes × Bytes)
cut_dash [] = none
cut_dash (b ∷ bs) =
    let rest = cut_dash bs in
    if b == b'-' then some ([], bs) else elim rest [ some (l, r) ↦ some (b ∷ l, r) | none ↦ none ]

-- A start and an end, both within the file.
unfoldable pub suffix_range : ℕ → Option ℤ → Option (ℕ × ℕ)
suffix_range size none = none
suffix_range size (some (negsuc n)) = none
suffix_range size (some (pos n)) =
    if n == 0 then none else some (size - (if ltb size n then size else n), size - 1)

unfoldable pub end_range : ℕ → ℕ → Option ℤ → Option (ℕ × ℕ)
end_range size start none = none
end_range size start (some (negsuc n)) = none
end_range size start (some (pos n)) =
    if ltb n start then none else some (start, (if leb size n then size - 1 else n))

unfoldable pub start_range : ℕ → Option ℤ → Bytes → Option (ℕ × ℕ)
unfolding end_range
start_range size none last = none
start_range size (some (negsuc n)) last = none
start_range size (some (pos start)) last =
    if leb size start
    then none
    else if eqb last []
    then some (start, size - 1)
    else end_range size start (atoi last)

unfoldable pub dash_range : ℕ → Option (Bytes × Bytes) → Option (ℕ × ℕ)
unfolding suffix_range start_range
dash_range size none = none
dash_range size (some (first, last)) =
    if eqb (trim_space first) []
    then suffix_range size (atoi (trim_space last))
    else start_range size (atoi (trim_space first)) (trim_space last)

-- parseSingleByteRange
unfoldable pub parse_single_byte_range : Bytes → ℤ → Option (ℕ × ℕ)
unfolding lower_byte dash_range
parse_single_byte_range value (negsuc n) = none
parse_single_byte_range value (pos size) =
    if (size == 0) || not (has_prefix (map lower_byte value) (codes "bytes="))
    then none
    else (let spec = trim_space (drop 6 value) in
        if eqb spec [] || contains_byte spec b',' then none else dash_range size (cut_dash spec))
