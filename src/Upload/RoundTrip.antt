-- ===== src/Upload/RoundTrip.antt =====
-- A file that is uploaded in chunks and merged, where no call fails (web/upload/chunk.go).
use Prim.Native.Nat.{min}
use mango_hub.Base.{
  ℕ, zero, suc, ◌+◌, ◌-◌, ◌*◌, ◌≤◌, ◌<◌, ◌≡◌, ◌⊎◌, inl, inr, refl, ap, ◌∙◌, true, false, Bool,
  Option, none, some, List, [], ◌∷◌, arith, length, take, take-all, All, Some, Bytes, not, ◌||◌,
  ==_iff, Bool-cases, ◌==◌,
}
use mango_hub.Base.Branch.{if_true, if_false}
use mango_hub.Base.Int.{pos}
use mango_hub.Base.Assoc.{lookup, insert, lookup-insert_self}
use mango_hub.Upload.{
  Call, Metadata, Root, Session, Directory, ArchiveError, is_known_purpose, is_bad_size, max_size,
  chunk_size, chunk_count, expected_chunk_size, some_eq, set_part, init, load_from, check_metadata,
  load_session, write_chunk, save_in, save_written, publish_in, save_chunk, merge_part, then_merge,
  merge_parts, publish_archive, merge_directory, merge_in, merge,
}
use mango_hub.Upload.Chunks.{
  chunk_count_iff, slice, length-slice, append-take-slice, expected_chunk_size-min,
}

abbrev pub always : Call → Bool
always c = true

-- What was there, or has been saved, is there after the next chunk is saved.
set_part-kept :
    (content : Bytes) (i j : ℕ) (order : List ℕ) (parts : ℕ → Option Bytes)
    → (parts j ≡ some (slice content j)) ⊎ Some (λ k. k ≡ j) (i ∷ order)
    → (set_part i (some (slice content i)) parts j ≡ some (slice content j))
      ⊎ Some (λ k. k ≡ j) order
set_part-kept content i j order parts h = elim (Bool-cases (i == j)) [
  | inl e ↦
      let same : i ≡ j = (==_iff i j).0 e in
      inl (
        if_true (λ o. o ≡ some (slice content j)) (parts j) (i == j) e
          (ap (λ k. some (slice content k)) same))
  | inr n ↦ kept_if n h
]
  where
    kept_if :
        (i == j) ≡ false
        → (parts j ≡ some (slice content j)) ⊎ Some (λ k. k ≡ j) (i ∷ order)
        → (set_part i (some (slice content i)) parts j ≡ some (slice content j))
          ⊎ Some (λ k. k ≡ j) order
    kept_if n (inl old) =
        inl (if_false (λ o. o ≡ some (slice content j)) (some (slice content i)) (i == j) n old)
    kept_if n (inr (inl same)) = absurd (ground (arith, n, same))
    kept_if n (inr (inr later)) = inr later

module _ (encode : Metadata → Bytes) (decode : Bytes → Option Metadata) (valid_id : Bytes → Bool)
    (id purpose filename content : Bytes) where
  abbrev pub meta : Metadata
  meta = record { purpose = purpose; size = pos (length content); filename = filename }

  abbrev stored : (ℕ → Option Bytes) → Directory
  stored parts = record { info = some (encode meta); parts = parts; archive = none }

  -- Each chunk is saved as the order says; what SaveChunk returns is left aside.
  unfoldable pub save_each : List ℕ → Root → Root
  unfolding save_chunk
  save_each [] root = root
  save_each (i ∷ order) root =
      save_each order (save_chunk always valid_id decode id (pos i) (slice content i) root).1

  module _ (valid : valid_id id ≡ true) (known : is_known_purpose purpose ≡ true)
      (decodes : decode (encode meta) ≡ some meta) (some_byte : 1 ≤ length content)
      (fits : length content ≤ max_size) where
    load_session-stored :
        (root : Root) (parts : ℕ → Option Bytes)
        → lookup id root ≡ some (stored parts)
        → load_session always valid_id decode id root ≡ inr (record { id = id; metadata = meta })
    unfolding load_session
    load_session-stored root parts e =
        let good : (not (is_known_purpose purpose) || is_bad_size meta.size) ≡ false =
          ground (arith, known) in
        if_false (λ r. r ≡ inr (record { id = id; metadata = meta })) _ (not (valid_id id))
          (ground (arith, valid))
          (ap (load_from always valid_id decode id) e
            ∙ ap (check_metadata always valid_id decode id) decodes
            ∙ if_false (λ r. r ≡ inr (record { id = id; metadata = meta })) _
                (not (is_known_purpose purpose) || is_bad_size meta.size) good refl)

    write_chunk-slice :
        (i : ℕ)
        → i * chunk_size < length content
        → write_chunk always valid_id decode
            (pos i)
            (slice content i)
            (expected_chunk_size (length content) (pos i))
          ≡ inr (slice content i)
    unfolding write_chunk
    write_chunk-slice i h =
        let whole : take (chunk_size + 1) (slice content i) ≡ slice content i =
          take-all (chunk_size + 1) (slice content i) (omega (arith, length-slice content i)) in
        ap (write_chunk always valid_id decode (pos i) (slice content i))
          (expected_chunk_size-min (length content) i h)
        ∙ if_true (λ r. r ≡ inr (slice content i)) _
            (length (take (chunk_size + 1) (slice content i))
              == min chunk_size (length content - i * chunk_size))
            ((==_iff _ _).1 (ap length whole ∙ length-slice content i)) (ap inr whole)

    save_chunk-stored :
        (i : ℕ) (root : Root) (parts : ℕ → Option Bytes)
        → i * chunk_size < length content
        → lookup id root ≡ some (stored parts)
        → save_chunk always valid_id decode id (pos i) (slice content i) root
          ≡ (none, insert id (stored (set_part i (some (slice content i)) parts)) root)
    unfolding save_chunk
    save_chunk-stored i root parts h e =
        ap (save_in always valid_id decode id (pos i) (slice content i) root)
          (load_session-stored root parts e)
        ∙ ap (save_written always valid_id decode id i root) (write_chunk-slice i h)
        ∙ ap (publish_in always valid_id decode id i (slice content i) root) e

    save_each-stored :
        (order : List ℕ) (root : Root) (parts : ℕ → Option Bytes)
        → All (λ i. i * chunk_size < length content) order
        → lookup id root ≡ some (stored parts)
        → (parts' : ℕ → Option Bytes) × (lookup id (save_each order root) ≡ some (stored parts'))
          × ((j : ℕ)
              → (parts j ≡ some (slice content j)) ⊎ Some (λ i. i ≡ j) order
              → parts' j ≡ some (slice content j))
    unfolding save_each
    save_each-stored [] root parts inside e = (parts, e, λ j h. ground arith)
    save_each-stored (i ∷ order) root parts inside e =
        let saved = save_chunk-stored i root parts inside.0 e in
        let next = set_part i (some (slice content i)) parts in
        let root' = insert id (stored next) root in
        let (parts', e', kept) =
          save_each-stored order root' next inside.1 (lookup-insert_self id (stored next) root) in
        (
          parts',
          ap (λ r. lookup id (save_each order r.1)) saved ∙ e',
          λ j h. kept j (set_part-kept content i j order parts h),
        )

    merge_part-slice :
        (i : ℕ) (part : Option Bytes)
        → i * chunk_size < length content
        → part ≡ some (slice content i)
        → merge_part always valid_id decode (length content) i (take (i * chunk_size) content) part
          ≡ inr (take (suc i * chunk_size) content)
    merge_part-slice i part h e =
        ap (merge_part always valid_id decode (length content) i (take (i * chunk_size) content)) e
        ∙ if_true (λ r. r ≡ inr (take (suc i * chunk_size) content)) _
            (some_eq (length (slice content i)) (expected_chunk_size (length content) (pos i)))
            (ap (some_eq (length (slice content i))) (expected_chunk_size-min (length content) i h)
              ∙ (==_iff _ _).1 (length-slice content i))
            (ap inr (append-take-slice content i))

    merge_parts-slices :
        (parts : ℕ → Option Bytes) (rounds i : ℕ)
        → i + rounds ≡ chunk_count (length content)
        → ((j : ℕ) → j * chunk_size < length content → parts j ≡ some (slice content j))
        → merge_parts always valid_id decode parts
            (length content)
            rounds
            i
            (take (i * chunk_size) content)
          ≡ inr content
    unfolding merge_parts
    merge_parts-slices parts zero i r all =
        let past : length content ≤ i * chunk_size =
          (let k = (chunk_count_iff (length content) i).1 in ground (arith, k)) in
        ap inr (take-all (i * chunk_size) content past)
    merge_parts-slices parts (suc rounds) i r all =
        let inside = (chunk_count_iff (length content) i).0 (omega arith) in
        ap
          (then_merge always valid_id decode (λ longer.
            merge_parts always valid_id decode parts (length content) rounds (suc i) longer))
          (merge_part-slice i (parts i) inside (all i inside))
        ∙ merge_parts-slices parts rounds (suc i) (omega arith) all

    init-stored :
        (root : Root)
        → (init always valid_id encode id purpose filename (pos (length content)) root).1
          ≡ insert id (stored (λ i. none)) root
    unfolding init
    init-stored root =
        if_false
          (λ (r : (ArchiveError ⊎ Session) × Root). r.1 ≡ insert id (stored (λ i. none)) root) _
          (not (is_known_purpose purpose)) (ground (arith, known))
          (if_false
            (λ (r : (ArchiveError ⊎ Session) × Root). r.1 ≡ insert id (stored (λ i. none)) root) _
            (is_bad_size (pos (length content))) (ground arith) refl)

    merge-stored :
        (root : Root) (parts : ℕ → Option Bytes)
        → lookup id root ≡ some (stored parts)
        → ((j : ℕ) → j * chunk_size < length content → parts j ≡ some (slice content j))
        → merge always valid_id decode id root ≡ (
          inr (record { id = id; metadata = meta }),
          insert id (record (stored parts) { archive = some content }) root,
        )
    unfolding merge
    merge-stored root parts e all =
        let session : Session = record { id = id; metadata = meta } in
        ap (merge_in always valid_id decode id root) (load_session-stored root parts e)
        ∙ ap (merge_directory always valid_id decode id root session) e
        ∙ ap (publish_archive always valid_id decode id root session (stored parts))
            (merge_parts-slices parts (chunk_count (length content)) 0 (omega arith) all)

    -- A file of 1 byte to 4 GiB is announced for a known purpose, and its chunks are saved in any
    -- order, some of them twice if one likes, but each at least once: if no call fails, Merge then
    -- reports success, and the archive of the upload is the file. The metadata is read back as it was written.
    pub merge-save_each :
        (order : List ℕ) (root : Root)
        → All (λ i. i * chunk_size < length content) order
        → ((j : ℕ) → j * chunk_size < length content → Some (λ i. i ≡ j) order)
        → (d : Directory) × (merge always valid_id decode id (
              save_each order
                (init always valid_id encode id purpose filename (pos (length content)) root).1)
            ≡ (
              inr (record { id = id; metadata = meta }),
              insert id d (
                  save_each order
                    (init always valid_id encode id purpose filename
                      (pos (length content))
                      root).1),
            ))
          × (d.archive ≡ some content)
    merge-save_each order root inside each =
        let begun = init always valid_id encode id purpose filename (pos (length content)) root in
        let (parts, e, kept) =
          save_each-stored order begun.1 (λ i. none) inside
            (ap (lookup id) (init-stored root) ∙ lookup-insert_self id (stored (λ i. none)) root) in
        (
          record (stored parts) { archive = some content },
          merge-stored (save_each order begun.1) parts e (λ j h. kept j (inr (each j h))),
          refl,
        )
