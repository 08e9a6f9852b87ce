-- ===== src/FileManager/Previews.antt =====
-- The tokens of previews, CreatePreviewToken and PreviewDownload of web/filemanager/transfer.go. The
-- token that is made, uuid.NewString, and the time are arguments of a request.
pub mod Entitlement
use mango_hub.Base.{
  ℕ, ◌+◌, ◌*◌, ◌^◌, ◌≤◌, ◌≡◌, refl, sym, ap, ◌∙◌, subst, Bool, true, false, not, ◌&&◌, ◌||◌, Option,
  none, some, List, [], ◌∷◌, ◌++◌, ◌⊎◌, inl, inr, All, Bytes, eqb, eqb→eq, trim_space, ltb, arith,
  if◌then◌else◌,
}
use mango_hub.Base.Assoc.{Map, lookup, insert, delete}
use mango_hub.Base.Branch.{either, either_by}

abbrev pub preview_token_ttl : ℕ
preview_token_ttl = 600 * 10 ^ 9

pub record PreviewToken : Type 0 where
  pub client_uuid : Bytes
  pub path : Bytes
  pub expires_at : ℕ

pub data Answer : Type 0 where
  bad_request unauthorized : Answer
  created serves : Bytes → Answer

-- The loop that drops the expired tokens.
prune : ℕ → Map PreviewToken → Map PreviewToken
prune now [] = []
prune now ((token, item) ∷ items) =
    let rest = prune now items in if ltb item.expires_at now then rest else (token, item) ∷ rest

abbrev pub granted : ℕ → Bytes → Bytes → PreviewToken
granted now client path = record {
  client_uuid = client;
  path = trim_space path;
  expires_at = now + preview_token_ttl;
}

unfoldable pub create_preview_token :
    ℕ → Bytes → Bytes → Bytes → Map PreviewToken → Answer × Map PreviewToken
unfolding prune
create_preview_token now token client path items =
    if eqb client [] || eqb (trim_space path) []
    then (bad_request, items)
    else (created token, insert token (granted now client path) (prune now items))

serve_item : ℕ → Bytes → Bytes → Option PreviewToken → Map PreviewToken → Answer × Map PreviewToken
serve_item now token client none items = (unauthorized, items)
serve_item now token client (some item) items =
    if not (eqb item.client_uuid client) || ltb item.expires_at now
    then (unauthorized, delete token items)
    else (serves item.path, items)

-- PreviewDownload up to the download, which is of the path that is served.
unfoldable pub preview_download : ℕ → Bytes → Bytes → Map PreviewToken → Answer × Map PreviewToken
unfolding serve_item
preview_download now query client items =
    if eqb client [] || eqb (trim_space query) []
    then (bad_request, items)
    else serve_item now (trim_space query) client (lookup (trim_space query) items) items

pub data Event : Type 0 where
  creates : ℕ → Bytes → Bytes → Bytes → Event
  previews : ℕ → Bytes → Bytes → Event

unfoldable pub step : Event → Map PreviewToken → Answer × Map PreviewToken
step (creates now token client path) items = create_preview_token now token client path items
step (previews now query client) items = preview_download now query client items
