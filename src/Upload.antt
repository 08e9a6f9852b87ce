-- ===== src/Upload.antt =====
-- Archives that are uploaded in chunks: web/upload/chunk.go, for its DefaultStore. Each call of the
-- operating system may fail, as the argument `works` says; encoding/json and uuid.Parse are parameters. The
-- files of an upload are a record, its chunks by their index, and os.CreateTemp's file a value.
pub mod Chunks
pub mod Merging
pub mod RoundTrip
mod Tests
use mango_hub.Base.{
  ℕ, zero, suc, ◌+◌, ◌-◌, ◌*◌, ◌/◌, ◌^◌, ◌≡◌, Bool, true, false, ◌||◌, not, Option, none, some, ◌⊎◌,
  inl, inr, List, [], ◌∷◌, ◌++◌, length, take, ltb, leb, ◌==◌, if◌then◌else◌, Bytes, codes, eqb,
}
use mango_hub.Base.Int.{ℤ, pos, pos_part, ltb_ℤ, leb_ℤ}
use mango_hub.Base.Assoc.{Map, lookup, insert, delete}

-- 5 MiB
unfoldable pub chunk_size : ℕ
chunk_size = 5 * 1024 * 1024

-- backup.MaxArchiveSize
abbrev pub max_size : ℕ
max_size = 4 * 2 ^ 30

pub record Metadata : Type 0 where
  pub purpose : Bytes
  pub size : ℤ
  pub filename : Bytes

-- The directory of an upload: upload.json, the files of chunks, and archive.zip.
pub record Directory : Type 0 where
  pub info : Option Bytes
  pub parts : ℕ → Option Bytes
  pub archive : Option Bytes

abbrev pub Root : Type 0
Root = Map Directory

-- The calls that may fail.
pub data Call : Type 0 where
  make_directory : Call
  write_info : Call
  read_info : Call
  create_temporary : Call
  copy : Call
  close : Call
  remove_file : Call
  rename : Call
  stat : Call
  open_part : Call

pub data ArchiveError : Type 0 where
  invalid_purpose : ArchiveError
  invalid_size : ArchiveError
  invalid_id : ArchiveError
  unknown_upload : ArchiveError
  invalid_metadata : ArchiveError
  invalid_index : ArchiveError
  wrong_size : ℕ → ArchiveError
  missing : ℕ → ArchiveError
  failed : Call → ArchiveError

pub record Session : Type 0 where
  pub id : Bytes
  pub metadata : Metadata

unfoldable pub is_known_purpose : Bytes → Bool
unfolding eqb
is_known_purpose p = eqb p (codes "backup") || eqb p (codes "plugin") || eqb p (codes "theme")

-- A size that the store takes, from 1 byte to the largest.
abbrev pub is_bad_size : ℤ → Bool
is_bad_size size = leb_ℤ size (pos 0) || ltb_ℤ (pos max_size) size

-- chunkCount and expectedChunkSize of a size that the store takes: no sum overflows.
unfoldable pub chunk_count : ℕ → ℕ
unfolding chunk_size
chunk_count size = (size + chunk_size - 1) / chunk_size

unfoldable pub expected_chunk_size : ℕ → ℤ → Option ℕ
unfolding chunk_count chunk_size
expected_chunk_size size index =
    if ltb_ℤ index (pos 0) || leb_ℤ (pos (chunk_count size)) index
    then none
    else if pos_part index + 1 == chunk_count size
    then some (size - pos_part index * chunk_size)
    else some chunk_size

abbrev pub set_part : ℕ → Option Bytes → (ℕ → Option Bytes) → ℕ → Option Bytes
set_part i part parts j = if i == j then part else parts j

-- A step that ends an operation with its error, if the call fails.
abbrev pub check {ℓ} : {A : Type ℓ} → Bool → ArchiveError → ArchiveError ⊎ A → ArchiveError ⊎ A
check true e next = next
check false e next = inl e

abbrev pub some_eq : ℕ → Option ℕ → Bool
some_eq n none = false
some_eq n (some m) = n == m

module _ (works : Call → Bool) (valid_id : Bytes → Bool) where
  -- Init; `id` is the new UUID.
  unfoldable pub init :
      (Metadata → Bytes) → Bytes → Bytes → Bytes → ℤ → Root → (ArchiveError ⊎ Session) × Root
  unfolding is_known_purpose insert
  init encode id purpose filename size root =
      let metadata : Metadata = record { purpose = purpose; size = size; filename = filename } in
      let directory : Directory = record {
        info = some (encode metadata);
        parts = λ i. none;
        archive = none;
      } in
      if not (is_known_purpose purpose)
      then (inl invalid_purpose, root)
      else if is_bad_size size
      then (inl invalid_size, root)
      else if not (works make_directory)
      then (inl (failed make_directory), root)
      else if not (works write_info)
      then (inl (failed write_info), root)
      else (inr (record { id = id; metadata = metadata }), insert id directory root)

  -- Cancel
  unfoldable pub cancel : Bytes → Root → Option ArchiveError × Root
  unfolding delete
  cancel id root =
      if not (valid_id id)
      then (some invalid_id, root)
      else if not (works remove_file)
      then (some (failed remove_file), root)
      else (none, delete id root)

  module _ (decode : Bytes → Option Metadata) where
    abbrev pub check_metadata : Bytes → Option Metadata → ArchiveError ⊎ Session
    check_metadata id none = inl (failed read_info)
    check_metadata id (some m) =
        if not (is_known_purpose m.purpose) || is_bad_size m.size
        then inl invalid_metadata
        else inr (record { id = id; metadata = m })

    abbrev pub read_directory : Bytes → Directory → ArchiveError ⊎ Session
    read_directory id d = elim d.info [
      | none ↦ inl unknown_upload
      | some info ↦ check (works read_info) (failed read_info) (check_metadata id (decode info))
    ]

    abbrev pub load_from : Bytes → Option Directory → ArchiveError ⊎ Session
    load_from id none = inl unknown_upload
    load_from id (some d) = read_directory id d

    unfoldable pub load_session : Bytes → Root → ArchiveError ⊎ Session
    unfolding lookup is_known_purpose
    load_session id root =
        if not (valid_id id) then inl invalid_id else load_from id (lookup id root)

    -- The end of SaveChunk: the file of the chunk is removed, and the new one takes its name.
    abbrev pub publish : ℕ → Bytes → Directory → Option ArchiveError × Directory
    publish i part d =
        if not (works remove_file)
        then (some (failed remove_file), d)
        else if not (works rename)
        then (some (failed rename), record d { parts = set_part i none d.parts })
        else (none, record d { parts = set_part i (some part) d.parts })

    -- What is written to the temporary file: at most one byte more than a chunk is read.
    unfoldable pub write_chunk : ℤ → Bytes → Option ℕ → ArchiveError ⊎ Bytes
    unfolding chunk_size
    write_chunk index source none = inl invalid_index
    write_chunk index source (some expected) =
        let part = take (chunk_size + 1) source in
        check (works create_temporary) (failed create_temporary) (
          check (works copy) (failed copy) (
            check (works close) (failed close)
              (if length part == expected then inr part else inl (wrong_size (pos_part index)))))

    abbrev pub put_directory :
        Bytes → Root → Option ArchiveError × Directory → Option ArchiveError × Root
    put_directory id root (e, d) = (e, insert id d root)

    abbrev pub publish_in : Bytes → ℕ → Bytes → Root → Option Directory → Option ArchiveError × Root
    publish_in id i part root none = (some unknown_upload, root)
    publish_in id i part root (some d) = put_directory id root (publish i part d)

    abbrev pub save_written : Bytes → ℕ → Root → ArchiveError ⊎ Bytes → Option ArchiveError × Root
    save_written id i root (inl e) = (some e, root)
    save_written id i root (inr part) = publish_in id i part root (lookup id root)

    abbrev pub save_in :
        Bytes → ℤ → Bytes → Root → ArchiveError ⊎ Session → Option ArchiveError × Root
    save_in id index source root (inl e) = (some e, root)
    save_in id index source root (inr session) =
        save_written id (pos_part index) root
          (write_chunk index source (expected_chunk_size (pos_part session.metadata.size) index))

    unfoldable pub save_chunk : Bytes → ℤ → Bytes → Root → Option ArchiveError × Root
    unfolding load_session lookup insert write_chunk expected_chunk_size
    save_chunk id index source root = save_in id index source root (load_session id root)

    -- One round of the loop of Merge, behind the chunks that are merged already.
    abbrev pub merge_part : ℕ → ℕ → Bytes → Option Bytes → ArchiveError ⊎ Bytes
    merge_part size i merged none = inl (missing i)
    merge_part size i merged (some part) = check (works stat) (failed stat) (
        if some_eq (length part) (expected_chunk_size size (pos i))
        then check (works open_part) (failed open_part) (
            check (works copy) (failed copy)
              (check (works close) (failed close) (inr (merged ++ part))))
        else inl (wrong_size i))

    abbrev pub then_merge :
        (Bytes → ArchiveError ⊎ Bytes) → ArchiveError ⊎ Bytes → ArchiveError ⊎ Bytes
    then_merge go (inl e) = inl e
    then_merge go (inr merged) = go merged

    -- The chunks from `i` on, so many of them.
    unfoldable pub merge_parts : (ℕ → Option Bytes) → ℕ → ℕ → ℕ → Bytes → ArchiveError ⊎ Bytes
    unfolding expected_chunk_size
    merge_parts parts size zero i merged = inr merged
    merge_parts parts size (suc rounds) i merged =
        then_merge (λ longer. merge_parts parts size rounds (suc i) longer)
          (merge_part size i merged (parts i))

    abbrev pub publish_archive :
        Bytes → Root → Session → Directory → ArchiveError ⊎ Bytes → (ArchiveError ⊎ Session) × Root
    publish_archive id root session d (inl e) = (inl e, root)
    publish_archive id root session d (inr merged) =
        if not (works close)
        then (inl (failed close), root)
        else if not (works rename)
        then (inl (failed rename), root)
        else (inr session, insert id (record d { archive = some merged }) root)

    abbrev pub merge_directory :
        Bytes → Root → Session → Option Directory → (ArchiveError ⊎ Session) × Root
    merge_directory id root session none = (inl unknown_upload, root)
    merge_directory id root session (some d) =
        let size = pos_part session.metadata.size in
        publish_archive id root session d (
          check (works create_temporary) (failed create_temporary)
            (merge_parts d.parts size (chunk_count size) 0 []))

    abbrev pub merge_in : Bytes → Root → ArchiveError ⊎ Session → (ArchiveError ⊎ Session) × Root
    merge_in id root (inl e) = (inl e, root)
    merge_in id root (inr session) = merge_directory id root session (lookup id root)

    -- Merge
    unfoldable pub merge : Bytes → Root → (ArchiveError ⊎ Session) × Root
    unfolding load_session lookup insert merge_parts chunk_count
    merge id root = merge_in id root (load_session id root)
