-- ===== src/Upload/Merging.antt =====
-- What Merge makes of the chunks (web/upload/chunk.go).
use Prim.Native.Nat.{min}
use mango_hub.Base.{
  ℕ, zero, suc, ◌+◌, ◌-◌, ◌*◌, ◌<◌, ◌≡◌, ◌⊎◌, inl, inr, refl, sym, ap, ◌∙◌, true, false, Bool,
  Option, none, some, [], arith, length, length-append, Bytes, not, if◌then◌else◌,
}
use mango_hub.Base.Branch.{either_by}
use mango_hub.Base.Int.{ℤ, pos, pos_part}
use mango_hub.Base.Assoc.{lookup, insert, lookup-insert_self}
use mango_hub.Upload.{
  Call, Metadata, Root, Session, Directory, ArchiveError, chunk_size, chunk_count, check,
  merge_part, then_merge, merge_parts, publish_archive, merge_directory, merge_in, is_bad_size,
  check_metadata, read_directory, load_from, load_session, read_info, merge, close,
  create_temporary, rename,
}
use mango_hub.Upload.Chunks.{chunk_count_iff, expected_chunk_size-min}

pub check-inr :
    {A : Type 0} (b : Bool) (e : ArchiveError) (next : ArchiveError ⊎ A) (a : A)
    → check b e next ≡ inr a
    → next ≡ inr a
check-inr true e next a h = h
check-inr false e next a h = cc

guard-inr :
    {A : Type 0} (b : Bool) (e : ArchiveError) (next : ArchiveError ⊎ A) (a : A)
    → (if b then inl e else next) ≡ inr a
    → next ≡ inr a
guard-inr true e next a h = cc
guard-inr false e next a h = h

-- So many bytes of the file are before the chunk with this index.
abbrev pub before : ℕ → ℕ → ℕ
before size i = min (i * chunk_size) size

before-suc :
    (size i : ℕ)
    → i * chunk_size < size
    → before size i + min chunk_size (size - i * chunk_size) ≡ before size (suc i)
before-suc size i h =
    let grown : suc i * chunk_size ≡ i * chunk_size + chunk_size =
      unfold chunk_size in omega arith in
    omega (arith, grown)

before-count : (size : ℕ) → before size (chunk_count size) ≡ size
before-count size = let k = (chunk_count_iff size (chunk_count size)).1 in ground (arith, k)

module _ (works : Call → Bool) (valid_id : Bytes → Bool) (decode : Bytes → Option Metadata) where
  then_merge-inr :
      (go : Bytes → ArchiveError ⊎ Bytes) (step : ArchiveError ⊎ Bytes) (out : Bytes)
      → then_merge works valid_id decode go step ≡ inr out
      → (longer : Bytes) × (step ≡ inr longer) × (go longer ≡ inr out)
  then_merge-inr go (inl e) out h = cc
  then_merge-inr go (inr longer) out h = (longer, refl, h)

  merge_part-length :
      (size i : ℕ) (merged longer : Bytes) (part : Option Bytes)
      → i * chunk_size < size
      → merge_part works valid_id decode size i merged part ≡ inr longer
      → length longer ≡ length merged + min chunk_size (size - i * chunk_size)
  merge_part-length size i merged longer none inside h = cc
  merge_part-length size i merged longer (some part) inside h =
      ground (arith, expected_chunk_size-min size i inside, length-append merged part)

  merge_parts-length :
      (parts : ℕ → Option Bytes) (size rounds i : ℕ) (merged out : Bytes)
      → i + rounds ≡ chunk_count size
      → length merged ≡ before size i
      → merge_parts works valid_id decode parts size rounds i merged ≡ inr out
      → length out ≡ size
  unfolding merge_parts
  merge_parts-length parts size zero i merged out r l h =
      let end : i ≡ chunk_count size = omega arith in
      let same : merged ≡ out = cc in
      ap length (sym same) ∙ l ∙ ap (before size) end ∙ before-count size
  merge_parts-length parts size (suc rounds) i merged out r l h =
      let inside = (chunk_count_iff size i).0 (omega arith) in
      let (longer, stepped, more) = then_merge-inr _ _ out h in
      let grown = merge_part-length size i merged longer (parts i) inside stepped in
      merge_parts-length parts size rounds (suc i) longer out (omega arith)
        (omega (arith, grown, l, before-suc size i inside)) more

  check_metadata-sized :
      (id : Bytes) (m : Option Metadata) (session : Session)
      → check_metadata works valid_id decode id m ≡ inr session
      → is_bad_size session.metadata.size ≡ false
  check_metadata-sized id none session h = cc
  check_metadata-sized id (some m) session h = ground arith

  read_directory-sized :
      (id : Bytes) (info : Option Bytes) (parts : ℕ → Option Bytes) (archive : Option Bytes)
      (session : Session)
      → read_directory works valid_id decode id
          (record { info = info; parts = parts; archive = archive })
        ≡ inr session
      → is_bad_size session.metadata.size ≡ false
  read_directory-sized id none parts archive session h = cc
  read_directory-sized id (some info) parts archive session h =
      check_metadata-sized id (decode info) session (check-inr (works read_info) _ _ session h)

  load_from-sized :
      (id : Bytes) (o : Option Directory) (session : Session)
      → load_from works valid_id decode id o ≡ inr session
      → is_bad_size session.metadata.size ≡ false
  load_from-sized id none session h = cc
  load_from-sized id (some d) session h = read_directory-sized id d.info d.parts d.archive session h

  load_session-sized :
      (id : Bytes) (root : Root) (session : Session)
      → load_session works valid_id decode id root ≡ inr session
      → is_bad_size session.metadata.size ≡ false
  unfolding load_session
  load_session-sized id root session h =
      load_from-sized id (lookup id root) session (guard-inr (not (valid_id id)) _ _ session h)

  -- Where the archive is, and how long.
  abbrev pub HasArchive : Bytes → ℤ → Root → Type 0
  HasArchive id size root =
      (d : Directory) × (out : Bytes) × (lookup id root ≡ some d)
      × (d.archive ≡ some out)
      × (pos (length out) ≡ size)

  size-pos : (size : ℤ) → is_bad_size size ≡ false → pos (pos_part size) ≡ size
  size-pos size h = ground arith

  publish-HasArchive :
      (id : Bytes) (root : Root) (session s : Session) (d : Directory) (step : ArchiveError ⊎ Bytes)
      → is_bad_size s.metadata.size ≡ false
      → ((out : Bytes) → step ≡ inr out → length out ≡ pos_part s.metadata.size)
      → (publish_archive works valid_id decode id root s d step).0 ≡ inr session
      → HasArchive id session.metadata.size
          (publish_archive works valid_id decode id root s d step).1
  publish-HasArchive id root session s d (inl e) fits sized h = cc
  publish-HasArchive id root session s d (inr merged) fits sized h =
      either_by Result (not (works close)) (λ e k. cc)
        (λ e. either_by Result (not (works rename)) (λ e' k. cc) (λ e' k. published k)) h
    where
      Result : (ArchiveError ⊎ Session) × Root → Type 0
      Result r = r.0 ≡ inr session → HasArchive id session.metadata.size r.1

      published :
          ◌≡◌ {A = ArchiveError ⊎ Session} (inr s) (inr session)
          → HasArchive id session.metadata.size
              (insert id (record d { archive = some merged }) root)
      published k =
          let same : s ≡ session = cc in
          (
            record d { archive = some merged },
            merged,
            lookup-insert_self id _ root,
            refl,
            ap pos (sized merged refl)
                ∙ size-pos s.metadata.size fits
                ∙ ap (λ z. z.metadata.size) same,
          )

  directory-HasArchive :
      (id : Bytes) (root : Root) (session s : Session) (o : Option Directory)
      → is_bad_size s.metadata.size ≡ false
      → (merge_directory works valid_id decode id root s o).0 ≡ inr session
      → HasArchive id session.metadata.size (merge_directory works valid_id decode id root s o).1
  directory-HasArchive id root session s none fits h = cc
  directory-HasArchive id root session s (some d) fits h =
      let size = pos_part s.metadata.size in
      publish-HasArchive id root session s d _ fits
        (λ out e.
          merge_parts-length d.parts size (chunk_count size) 0 [] out (omega arith) (omega arith)
            (check-inr (works create_temporary) _ _ out e))
        h

  merge_in-HasArchive :
      (id : Bytes) (root : Root) (session : Session) (step : ArchiveError ⊎ Session)
      → ((s : Session) → step ≡ inr s → is_bad_size s.metadata.size ≡ false)
      → (merge_in works valid_id decode id root step).0 ≡ inr session
      → HasArchive id session.metadata.size (merge_in works valid_id decode id root step).1
  merge_in-HasArchive id root session (inl e) fits h = cc
  merge_in-HasArchive id root session (inr s) fits h =
      directory-HasArchive id root session s (lookup id root) (fits s refl) h

  -- When Merge reports success, the upload has an archive, of exactly the size that was announced.
  pub merge-HasArchive :
      (id : Bytes) (root : Root) (session : Session)
      → (merge works valid_id decode id root).0 ≡ inr session
      → HasArchive id session.metadata.size (merge works valid_id decode id root).1
  unfolding merge
  merge-HasArchive id root session h =
      merge_in-HasArchive id root session (load_session works valid_id decode id root)
        (load_session-sized id root) h
