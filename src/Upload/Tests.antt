-- ===== src/Upload/Tests.antt =====
-- Tests and examples for web/upload/chunk.go.
use mango_hub.Base.{
  ◌≡◌, inl, inr, refl, true, Bool, Option, none, some, [], ◌∷◌, arith, Bytes, codes, eqb,
}
use mango_hub.Base.Int.{pos}
use mango_hub.Base.Assoc.{insert, lookup}
use mango_hub.Upload.{
  Metadata, Root, Session, Directory, chunk_size, chunk_count, expected_chunk_size, merge_parts,
  is_known_purpose, init, load_session, merge, missing,
}
use mango_hub.Upload.Merging.{HasArchive, merge-HasArchive}
use mango_hub.Upload.RoundTrip.{always, save_each, merge-save_each}

abbrev id : Bytes
id = codes "6ba7b810-9dad-11d1-80b4-00c04fd430c8"

abbrev zip : Bytes
zip = codes "PK.."

abbrev any : Bytes → Bool
any s = true

abbrev encode : Metadata → Bytes
encode m = m.filename

abbrev metadata : Metadata
metadata = record { purpose = codes "theme"; size = pos 4; filename = codes "a.zip" }

abbrev decode_json : Bytes → Option Metadata
decode_json s = some metadata

abbrev begun : Root
begun = insert id (record { info = some (codes "a.zip"); parts = λ i. none; archive = none }) []

-- A chunk is missing.
too_early : (merge always any decode_json id begun).0 ≡ inl (missing 0)
unfolding merge load_session lookup is_known_purpose chunk_count merge_parts chunk_size eqb
too_early = refl

abbrev saved : Root
saved = insert id (record { info = some (codes "a.zip"); parts = λ i. some zip; archive = none }) []

abbrev session : Session
session = record { id = id; metadata = metadata }

merge-HasArchive_example :
    HasArchive always any decode_json id (pos 4) (merge always any decode_json id saved).1
unfolding merge load_session lookup is_known_purpose chunk_count merge_parts chunk_size eqb insert
    expected_chunk_size
merge-HasArchive_example = merge-HasArchive always any decode_json id saved session refl

abbrev sent : Root
sent =
    save_each encode decode_json any id (codes "theme") (codes "a.zip") zip (0 ∷ 0 ∷ [])
      (init always any encode id (codes "theme") (codes "a.zip") (pos 4) []).1

merge-save_each_example :
    (d : Directory) × (merge always any decode_json id sent ≡ (inr session, insert id d sent))
    × (d.archive ≡ some zip)
unfolding chunk_size is_known_purpose eqb
merge-save_each_example =
    merge-save_each encode decode_json any id (codes "theme") (codes "a.zip") zip refl refl refl
      (omega arith) (omega arith) (0 ∷ 0 ∷ []) [] (omega arith) (λ j h. inl (omega arith))
