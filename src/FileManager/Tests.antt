-- ===== src/FileManager/Tests.antt =====
-- Tests and examples for web/filemanager.
use mango_hub.Base.{List, ◌*◌, ◌^◌, ◌≡◌, refl, true, [], ◌∷◌, inr, codes, eqb, arith}
use mango_hub.Base.Assoc.{lookup, delete}
use mango_hub.Base.Int.{pos}
use mango_hub.FileManager.Sizes.{mib, Span, chunk_span, upload_chunk_count}
use mango_hub.FileManager.Tiling.{IsTile, chunk_span-IsTile}
use mango_hub.FileManager.Previews.{Event, creates, previews}
use mango_hub.FileManager.Previews.Entitlement.{AllEntitled, previews-AllEntitled}
use mango_hub.FileManager.Uploads.{
  UploadSession, Uploads, acquire_upload_session, finish_upload_session,
  remove_expired_upload_session,
}
use mango_hub.FileManager.Uploads.Slots.{IsUploads, uploads-IsUploads}

-- The last of the three chunks of a file of 5 MiB.
last_chunk :
    chunk_span (pos (5 * mib)) (pos (2 * mib)) (pos 2)
    ≡ inr (record { offset = 4 * mib; length = mib })
unfolding chunk_span upload_chunk_count
last_chunk = refl

chunk_span-IsTile_example :
    ((q : Span) × (chunk_span (pos (5 * mib)) (pos (2 * mib)) (pos 0) ≡ inr q) × (q.offset ≡ 0))
    × IsTile
        (5 * mib)
        (2 * mib)
        (omega arith)
        (omega arith)
        (omega arith)
        2
        (record { offset = 4 * mib; length = mib })
unfolding chunk_span upload_chunk_count
chunk_span-IsTile_example =
    chunk_span-IsTile (5 * mib) (2 * mib) (omega arith) (omega arith) (omega arith) 2
      (record { offset = 4 * mib; length = mib }) (omega arith) refl

abbrev no_uploads : Uploads
no_uploads = record { sessions = []; slots = 0; files = [] }

abbrev upload : UploadSession
upload = record {
  pointer = 1;
  state = record {
    id = codes "a";
    uuid = codes "u";
    path = codes "/tmp/f";
    size = pos 100;
    chunk_size = pos mib;
    next_offset = pos 0;
    expires_at = 50;
  };
  slot_held = true;
}

abbrev one_upload : Uploads
one_upload = record {
  sessions = (codes "a", upload) ∷ [];
  slots = 1;
  files = (codes "a", upload.state) ∷ [];
}

finished : finish_upload_session upload one_upload ≡ no_uploads
unfolding finish_upload_session lookup eqb delete
finished = refl

-- A request for a session that has expired while all is well takes it out.
uploads-IsUploads_example :
    IsUploads
      (acquire_upload_session true 60 2
        (codes "b")
        (codes "a")
        (codes "u")
        []
        (pos 0)
        (pos 0)
        one_upload).1
    × IsUploads (finish_upload_session upload one_upload)
    × IsUploads (remove_expired_upload_session 60 (codes "a") upload one_upload).1
unfolding IsUploads lookup eqb
uploads-IsUploads_example =
    uploads-IsUploads one_upload ((refl, tt), (refl, tt), refl, omega arith) true 60 2 (codes "b")
      (codes "a") (codes "u") [] (pos 0) (pos 0) upload refl

-- A token of ten minutes that is used in time and then again when it has expired.
abbrev requests : List Event
requests =
    creates 5 (codes "t") (codes "u") (codes " /tmp/f ")
    ∷ previews 6 (codes "t") (codes "u")
    ∷ previews (700 * 10 ^ 9) (codes "t") (codes "u")
    ∷ []

previews-AllEntitled_example : AllEntitled [] requests []
previews-AllEntitled_example = previews-AllEntitled requests
