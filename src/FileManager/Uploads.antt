-- ===== src/FileManager/Uploads.antt =====
-- The sessions of uploads, web/filemanager/transfer.go. A pointer to a session is a number; the
-- channel of slots is the number of its elements; a time is a number of nanoseconds; the files under
-- data/.uploading are a map by id. A write of such a file may fail, which `saved` tells.
pub mod Slots
use mango_hub.Base.{
  ℕ, suc, ◌+◌, ◌-◌, ◌*◌, ◌^◌, Bool, true, false, not, ◌&&◌, ◌||◌, Option, none, some, List, [], ◌∷◌,
  ◌⊎◌, inl, inr, Bytes, eqb, ltb, ◌==◌, if◌then◌else◌,
}
use mango_hub.Base.Assoc.{Map, lookup, insert, delete}
use mango_hub.Base.Int.{ℤ, pos, ltb_ℤ}
use mango_hub.FileManager.Sizes.{default_transfer_chunk_size}

abbrev pub max_concurrent_uploads : ℕ
max_concurrent_uploads = 4

abbrev pub upload_session_ttl : ℕ
upload_session_ttl = 900 * 10 ^ 9

-- persistedUploadSession
pub record PersistedUploadSession : Type 0 where
  pub id : Bytes
  pub uuid : Bytes
  pub path : Bytes
  pub size : ℤ
  pub chunk_size : ℤ
  pub next_offset : ℤ
  pub expires_at : ℕ

pub record UploadSession : Type 0 where
  pub pointer : ℕ
  pub state : PersistedUploadSession
  pub slot_held : Bool

pub record Uploads : Type 0 where
  pub sessions : Map UploadSession
  pub slots : ℕ
  pub files : Map PersistedUploadSession

pub data UploadError : Type 0 where
  upload_id_required too_many_uploads unknown_token session_mismatch : UploadError

-- What acquireUploadSession returns: a session and whether it is new, or an error.
abbrev pub Acquired : Type 0
Acquired = UploadError ⊎ (UploadSession × Bool)

abbrev pub is_at : Option UploadSession → UploadSession → Bool
is_at none session = false
is_at (some current) session = current.pointer == session.pointer

-- releaseUploadSlotLocked of a session that leaves the map.
unfoldable pub release_upload_slot : UploadSession → Uploads → Uploads
release_upload_slot session u = if session.slot_held then record u { slots = u.slots - 1 } else u

-- The session `current` of `id` leaves the map and gives its slot back, if it is the one that is meant.
leave : Bytes → Option UploadSession → UploadSession → Uploads → Uploads
unfolding release_upload_slot
leave id none session u = u
leave id (some current) session u =
    if current.pointer == session.pointer
    then release_upload_slot current (record u { sessions = delete id u.sessions })
    else u

unfoldable pub finish_upload_session : UploadSession → Uploads → Uploads
unfolding leave
finish_upload_session session u =
    leave session.state.id (lookup session.state.id u.sessions) session
      (record u { files = delete session.state.id u.files })

unfoldable pub remove_expired_upload_session : ℕ → Bytes → UploadSession → Uploads → Bool × Uploads
unfolding leave
remove_expired_upload_session now id session u =
    if not (ltb session.state.expires_at now)
    then (false, u)
    else if not (is_at (lookup id u.sessions) session)
    then (false, u)
    else (true, leave id (lookup id u.sessions) session (record u { files = delete id u.files }))

-- loadUploadSession of an id that is not empty.
load_file :
    ℕ → Bytes → Option PersistedUploadSession → Uploads → Option PersistedUploadSession × Uploads
load_file now id none u = (none, u)
load_file now id (some p) u =
    if ltb p.expires_at now then (none, record u { files = delete id u.files }) else (some p, u)

-- The answer to a request that continues a session; an empty path and a size of 0 match all.
unfoldable pub matched : Bytes → Bytes → ℤ → UploadSession → Acquired
matched uuid path size session =
    if not (eqb session.state.uuid uuid)
      || (not (eqb path []) && not (eqb session.state.path path))
      || ((ltb_ℤ size (pos 0) || ltb_ℤ (pos 0) size)
          && (ltb_ℤ session.state.size size || ltb_ℤ size session.state.size))
    then inl session_mismatch
    else inr (session, false)

-- A session that is restored from its file, unless one is there now, if there is a slot.
restored_at :
    ℕ
    → Bytes
    → PersistedUploadSession
    → Option UploadSession
    → Uploads
    → (UploadError ⊎ UploadSession) × Uploads
restored_at pointer id p (some existing) u = (inr existing, u)
restored_at pointer id p none u =
    if ltb u.slots max_concurrent_uploads
    then (let session : UploadSession = record { pointer = pointer; state = p; slot_held = true } in
        (
          inr session,
          record { sessions = insert id session u.sessions; slots = suc u.slots; files = u.files },
        ))
    else (inl too_many_uploads, u)

restored_or :
    ℕ → Bytes → Option PersistedUploadSession × Uploads → (UploadError ⊎ UploadSession) × Uploads
unfolding restored_at
restored_or pointer id (none, u) = (inl unknown_token, u)
restored_or pointer id (some p, u) = restored_at pointer id p (lookup id u.sessions) u

-- What follows the look-up of a session that is in memory: it may have expired, and is restored then.
unless_expired :
    ℕ → ℕ → Bytes → UploadSession → Bool × Uploads → (UploadError ⊎ UploadSession) × Uploads
unfolding load_file restored_or
unless_expired now pointer id session (true, u) =
    restored_or pointer id (load_file now id (lookup id u.files) u)
unless_expired now pointer id session (false, u) = (inr session, u)

-- The session of an id, which is restored if it is not in memory.
found_or : ℕ → ℕ → Bytes → Option UploadSession → Uploads → (UploadError ⊎ UploadSession) × Uploads
unfolding load_file restored_or unless_expired
found_or now pointer id none u = restored_or pointer id (load_file now id (lookup id u.files) u)
found_or now pointer id (some session) u =
    unless_expired now pointer id session (remove_expired_upload_session now id session u)

continued : Bytes → Bytes → ℤ → (UploadError ⊎ UploadSession) × Uploads → Acquired × Uploads
continued uuid path size (inl e, u) = (inl e, u)
continued uuid path size (inr session, u) = (matched uuid path size session, u)

-- acquireUploadSession of a first chunk, whose session gets the id `fresh`.
unfoldable pub acquire_first :
    Bool → ℕ → ℕ → Bytes → Bytes → Bytes → ℤ → ℤ → Uploads → Acquired × Uploads
acquire_first saved now pointer fresh uuid path size offset u =
    if ltb_ℤ offset (pos 0) || ltb_ℤ (pos 0) offset
    then (inl upload_id_required, u)
    else if ltb u.slots max_concurrent_uploads
    then (let state : PersistedUploadSession = record {
      id = fresh;
      uuid = uuid;
      path = path;
      size = size;
      chunk_size = pos default_transfer_chunk_size;
      next_offset = pos 0;
      expires_at = now + upload_session_ttl;
    } in
        let session : UploadSession = record {
          pointer = pointer;
          state = state;
          slot_held = true;
        } in
        (
          inr (session, true),
          record {
            sessions = insert fresh session u.sessions;
            slots = suc u.slots;
            files = if saved then insert fresh state u.files else u.files;
          },
        ))
    else (inl too_many_uploads, u)

-- acquireUploadSession
unfoldable pub acquire_upload_session :
    Bool → ℕ → ℕ → Bytes → Bytes → Bytes → Bytes → ℤ → ℤ → Uploads → Acquired × Uploads
unfolding found_or continued acquire_first
acquire_upload_session saved now pointer fresh id uuid path size offset u =
    if eqb id []
    then acquire_first saved now pointer fresh uuid path size offset u
    else continued uuid path size (found_or now pointer id (lookup id u.sessions) u)
