-- ===== src/FileManager/Uploads/Slots.antt =====
-- The slots of uploads (web/filemanager/transfer.go).
use mango_hub.Base.{
  ℕ, suc, ◌≤◌, ◌≡◌, refl, ap, subst, ◌∙◌, Bool, true, false, not, ◌||◌, Option, none, some, [], ◌∷◌,
  length, ◌⊎◌, inl, inr, Bytes, eqb, eqb_iff, eqb→eq, ltb, ◌==◌, arith, if◌then◌else◌,
}
use mango_hub.Base.Assoc.{Map, lookup, insert, delete, lookup-insert, lookup-delete}
use mango_hub.Base.Branch.{either, either_by, if_true, if_false}
use mango_hub.Base.Int.{ℤ, pos, ltb_ℤ}
use mango_hub.FileManager.Uploads.{
  max_concurrent_uploads, PersistedUploadSession, UploadSession, Uploads, UploadError, Acquired,
  is_at, release_upload_slot, leave, finish_upload_session, remove_expired_upload_session,
  load_file, restored_at, restored_or, unless_expired, found_or, continued, acquire_first,
  acquire_upload_session,
}

eqb_sym : (s t : Bytes) → eqb s t ≡ false → eqb t s ≡ false
eqb_sym s t h = ground (arith, eqb_iff s t, eqb_iff t s)

module _ {V : Type 0} where
  -- No key twice.
  abbrev Distinct : Map V → Type 0
  Distinct [] = Unit
  Distinct ((k, v) ∷ m) = (lookup k m ≡ none) × Distinct m

  abbrev AllOf : (V → Type 0) → Map V → Type 0
  AllOf P [] = Unit
  AllOf P ((k, v) ∷ m) = P v × AllOf P m

  length-insert :
      (k : Bytes) (v : V) (m : Map V) → lookup k m ≡ none → length (insert k v m) ≡ suc (length m)
  unfolding insert lookup
  length-insert k v [] h = omega arith
  length-insert k v ((j, w) ∷ m) h = ground (arith, length-insert k v m)

  head-missing :
      (k j : Bytes) (w : V) (m : Map V)
      → lookup k ((j, w) ∷ m) ≡ none
      → (eqb j k ≡ false) × (lookup k m ≡ none)
  unfolding lookup
  head-missing k j w m h = ground arith

  Distinct-insert :
      (k : Bytes) (v : V) (m : Map V) → lookup k m ≡ none → Distinct m → Distinct (insert k v m)
  unfolding insert lookup
  Distinct-insert k v [] h d = (refl, tt)
  Distinct-insert k v ((j, w) ∷ m) h d =
      let (other, rest) = head-missing k j w m h in
      if_false Distinct _ (eqb j k) other (
        lookup-insert k j v m ∙ if_false (λ o. o ≡ none) _ (eqb k j) (eqb_sym j k other) d.0,
        Distinct-insert k v m rest d.1,
      )

  delete-missing : (k : Bytes) (m : Map V) → lookup k m ≡ none → delete k m ≡ m
  unfolding lookup delete
  delete-missing k [] h = refl
  delete-missing k ((j, w) ∷ m) h = ground (arith, delete-missing k m)

  Distinct-delete : (k : Bytes) (m : Map V) → Distinct m → Distinct (delete k m)
  unfolding delete
  Distinct-delete k [] d = tt
  Distinct-delete k ((j, w) ∷ m) d =
      either Distinct (eqb j k) (Distinct-delete k m d.1)
        (lookup-delete k j m ∙ either (λ o. o ≡ none) (eqb k j) refl d.0, Distinct-delete k m d.1)

  length-delete :
      (k : Bytes) (v : V) (m : Map V)
      → Distinct m
      → lookup k m ≡ some v
      → suc (length (delete k m)) ≡ length m
  unfolding lookup delete
  length-delete k v [] d h = ground arith
  length-delete k v ((j, w) ∷ m) d h =
      either_by (λ (r : Map V). suc (length r) ≡ suc (length m)) (eqb j k)
        (λ y.
          ap (λ r. suc (length r))
            (delete-missing k m (subst (λ i. lookup i m ≡ none) (eqb→eq j k y) d.0)))
        (λ n. ap suc_of (length-delete k v m d.1 (tail-found n h)))
    where
      suc_of : ℕ → ℕ
      suc_of n = suc n

      tail-found :
          eqb j k ≡ false → (if eqb j k then some w else lookup k m) ≡ some v → lookup k m ≡ some v
      tail-found n e = ground arith

module _ {V : Type 0} (P : V → Type 0) where
  AllOf-insert : (k : Bytes) (v : V) (m : Map V) → P v → AllOf P m → AllOf P (insert k v m)
  unfolding insert
  AllOf-insert k v [] p a = (p, tt)
  AllOf-insert k v ((j, w) ∷ m) p a =
      either (AllOf P) (eqb j k) (p, a.1) (a.0, AllOf-insert k v m p a.1)

  AllOf-delete : (k : Bytes) (m : Map V) → AllOf P m → AllOf P (delete k m)
  unfolding delete
  AllOf-delete k [] a = tt
  AllOf-delete k ((j, w) ∷ m) a =
      either (AllOf P) (eqb j k) (AllOf-delete k m a.1) (a.0, AllOf-delete k m a.1)

  abbrev IfSome : Option V → Type 0
  IfSome none = Unit
  IfSome (some v) = P v

  AllOf-lookup : (k : Bytes) (m : Map V) → AllOf P m → IfSome (lookup k m)
  unfolding lookup
  AllOf-lookup k [] a = tt
  AllOf-lookup k ((j, w) ∷ m) a = either IfSome (eqb j k) a.0 (AllOf-lookup k m a.1)

abbrev IsHeld : UploadSession → Type 0
IsHeld session = session.slot_held ≡ true

-- The sessions in memory are as many as the slots that are taken, and each of them holds one.
unfoldable pub IsUploads : Uploads → Type 0
IsUploads u =
    Distinct u.sessions
    × AllOf IsHeld u.sessions
    × (u.slots ≡ length u.sessions)
    × (u.slots ≤ max_concurrent_uploads)

add-IsUploads :
    (id : Bytes) (session : UploadSession) (u : Uploads) (files : Map PersistedUploadSession)
    → IsUploads u
    → IsHeld session
    → lookup id u.sessions ≡ none
    → ltb u.slots max_concurrent_uploads ≡ true
    → IsUploads
        (record { sessions = insert id session u.sessions; slots = suc u.slots; files = files })
unfolding IsUploads
add-IsUploads id session u files h held new room = (
  Distinct-insert id session u.sessions new h.0,
  AllOf-insert IsHeld id session u.sessions held h.1,
  omega (arith, length-insert id session u.sessions new, h.2),
  ground arith,
)

leave-IsUploads :
    (id : Bytes) (o : Option UploadSession) (session : UploadSession) (u : Uploads)
    → lookup id u.sessions ≡ o
    → IsUploads u
    → IsUploads (leave id o session u)
unfolding leave release_upload_slot IsUploads
leave-IsUploads id none session u e h = h
leave-IsUploads id (some current) session u e h =
    let held : IsHeld current = subst (IfSome IsHeld) e (AllOf-lookup IsHeld id u.sessions h.1) in
    either IsUploads (current.pointer == session.pointer)
      (if_true IsUploads _ current.slot_held held (
        Distinct-delete id u.sessions h.0,
        AllOf-delete IsHeld id u.sessions h.1,
        omega (arith, length-delete id current u.sessions h.0 e, h.2),
        omega (arith, h.3),
      ))
      h

load_file-IsUploads :
    (now : ℕ) (id : Bytes) (o : Option PersistedUploadSession) (u : Uploads)
    → IsUploads u
    → IsUploads (load_file now id o u).1
unfolding load_file IsUploads
load_file-IsUploads now id none u h = h
load_file-IsUploads now id (some p) u h =
    either (λ (r : Option PersistedUploadSession × Uploads). IsUploads r.1) (ltb p.expires_at now) h
      h

restored_at-IsUploads :
    (pointer : ℕ) (id : Bytes) (p : PersistedUploadSession) (o : Option UploadSession) (u : Uploads)
    → lookup id u.sessions ≡ o
    → IsUploads u
    → IsUploads (restored_at pointer id p o u).1
unfolding restored_at
restored_at-IsUploads pointer id p (some existing) u e h = h
restored_at-IsUploads pointer id p none u e h =
    either_by (λ (r : (UploadError ⊎ UploadSession) × Uploads). IsUploads r.1)
      (ltb u.slots max_concurrent_uploads) (λ room. add-IsUploads id _ u u.files h refl e room)
      (λ full. h)

restored_or-IsUploads :
    (pointer : ℕ) (id : Bytes) (r : Option PersistedUploadSession × Uploads)
    → IsUploads r.1
    → IsUploads (restored_or pointer id r).1
unfolding restored_or
restored_or-IsUploads pointer id (none, u) h = h
restored_or-IsUploads pointer id (some p, u) h =
    restored_at-IsUploads pointer id p (lookup id u.sessions) u refl h

remove_expired-IsUploads :
    (now : ℕ) (id : Bytes) (session : UploadSession) (u : Uploads)
    → IsUploads u
    → IsUploads (remove_expired_upload_session now id session u).1
unfolding remove_expired_upload_session IsUploads
remove_expired-IsUploads now id session u h =
    let Q = λ (r : Bool × Uploads). IsUploads r.1 in
    either Q (not (ltb session.state.expires_at now)) h (
      either Q (not (is_at (lookup id u.sessions) session)) h
        (leave-IsUploads id (lookup id u.sessions) session _ refl h))

unless_expired-IsUploads :
    (now pointer : ℕ) (id : Bytes) (session : UploadSession) (r : Bool × Uploads)
    → IsUploads r.1
    → IsUploads (unless_expired now pointer id session r).1
unfolding unless_expired
unless_expired-IsUploads now pointer id session (true, u) h =
    restored_or-IsUploads pointer id _ (load_file-IsUploads now id (lookup id u.files) u h)
unless_expired-IsUploads now pointer id session (false, u) h = h

found_or-IsUploads :
    (now pointer : ℕ) (id : Bytes) (o : Option UploadSession) (u : Uploads)
    → IsUploads u
    → IsUploads (found_or now pointer id o u).1
unfolding found_or
found_or-IsUploads now pointer id none u h =
    restored_or-IsUploads pointer id _ (load_file-IsUploads now id (lookup id u.files) u h)
found_or-IsUploads now pointer id (some session) u h =
    unless_expired-IsUploads now pointer id session _ (remove_expired-IsUploads now id session u h)

continued-IsUploads :
    (uuid path : Bytes) (size : ℤ) (r : (UploadError ⊎ UploadSession) × Uploads)
    → IsUploads r.1
    → IsUploads (continued uuid path size r).1
unfolding continued
continued-IsUploads uuid path size (inl e, u) h = h
continued-IsUploads uuid path size (inr session, u) h = h

acquire_first-IsUploads :
    (saved : Bool) (now pointer : ℕ) (fresh uuid path : Bytes) (size offset : ℤ) (u : Uploads)
    → IsUploads u
    → lookup fresh u.sessions ≡ none
    → IsUploads (acquire_first saved now pointer fresh uuid path size offset u).1
unfolding acquire_first
acquire_first-IsUploads saved now pointer fresh uuid path size offset u h new =
    let Q = λ (r : Acquired × Uploads). IsUploads r.1 in
    either Q (ltb_ℤ offset (pos 0) || ltb_ℤ (pos 0) offset) h (
      either_by Q (ltb u.slots max_concurrent_uploads)
        (λ room. add-IsUploads fresh _ u _ h refl new room) (λ full. h))

-- In any state where the slots are those of the sessions in memory, with the id that a new session
-- would get not in use: whatever the request is, with an id or without, with files that are there,
-- expired or missing, the slots stay those of the sessions, at most four; and so they do when a
-- session is finished, also one that is no longer the current one, and when one expires.
pub uploads-IsUploads :
    (u : Uploads)
    → IsUploads u
    → (saved : Bool) (now pointer : ℕ) (fresh id uuid path : Bytes) (size offset : ℤ)
      (session : UploadSession)
    → lookup fresh u.sessions ≡ none
    → IsUploads (acquire_upload_session saved now pointer fresh id uuid path size offset u).1
      × IsUploads (finish_upload_session session u)
      × IsUploads (remove_expired_upload_session now id session u).1
unfolding acquire_upload_session finish_upload_session IsUploads
uploads-IsUploads u h saved now pointer fresh id uuid path size offset session new = (
  either (λ (r : Acquired × Uploads). IsUploads r.1) (eqb id [])
      (acquire_first-IsUploads saved now pointer fresh uuid path size offset u h new)
      (continued-IsUploads uuid path size _
        (found_or-IsUploads now pointer id (lookup id u.sessions) u h)),
  leave-IsUploads session.state.id (lookup session.state.id u.sessions) session _ refl h,
  remove_expired-IsUploads now id session u h,
)
