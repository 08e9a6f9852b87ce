-- ===== src/FileManager/Previews/Entitlement.antt =====
-- Who is served by the tokens of previews (web/filemanager/transfer.go).
use mango_hub.Base.{
  ℕ, ◌≤◌, ◌≡◌, refl, subst, ◌⊎◌, inl, inr, Bool, true, false, not, ◌||◌, Option, none, some, List,
  [], ◌∷◌, Bytes, eqb, eqb→eq, trim_space, ltb, arith,
}
use mango_hub.Base.Assoc.{Map, lookup, insert, delete}
use mango_hub.Base.Branch.{either, either_by}
use mango_hub.FileManager.Previews.{
  PreviewToken, Answer, created, serves, prune, granted, create_preview_token, serve_item,
  preview_download, Event, creates, previews, step,
}

-- The tokens that were made, the last one first, after one more request and its answer.
abbrev pub grants_of : Event → Answer → List (Bytes × PreviewToken) → List (Bytes × PreviewToken)
grants_of (creates now token client path) (created t) given =
    (token, granted now client path) ∷ given
grants_of event answer given = given

abbrev pub Among : Bytes → PreviewToken → List (Bytes × PreviewToken) → Type 0
Among token item [] = ⊥
Among token item ((t, i) ∷ given) = ((t ≡ token) × (i ≡ item)) ⊎ Among token item given

-- An answer that serves a path is to a request with a token that was made for the client and the
-- path, and that has not expired.
abbrev pub Entitled : List (Bytes × PreviewToken) → Event → Answer → Type 0
Entitled given (previews now query client) (serves path) =
    (item : PreviewToken) × Among (trim_space query) item given
    × (item.client_uuid ≡ client)
    × (item.path ≡ path)
    × (now ≤ item.expires_at)
Entitled given event answer = Unit

abbrev pub AllEntitled : List (Bytes × PreviewToken) → List Event → Map PreviewToken → Type 0
AllEntitled given [] items = Unit
AllEntitled given (event ∷ events) items =
    Entitled given event (step event items).0
    × AllEntitled (grants_of event (step event items).0 given) events (step event items).1

-- Every token in the map was made.
abbrev Known : List (Bytes × PreviewToken) → Map PreviewToken → Type 0
Known given [] = Unit
Known given ((k, item) ∷ items) = Among k item given × Known given items

Known-later :
    (g : Bytes × PreviewToken) (given : List (Bytes × PreviewToken)) (items : Map PreviewToken)
    → Known given items
    → Known (g ∷ given) items
Known-later g given [] k = tt
Known-later g given ((t, item) ∷ items) k = (inr k.0, Known-later g given items k.1)

Known-prune :
    (now : ℕ) (given : List (Bytes × PreviewToken)) (items : Map PreviewToken)
    → Known given items
    → Known given (prune now items)
unfolding prune
Known-prune now given [] k = tt
Known-prune now given ((t, item) ∷ items) k =
    either (Known given) (ltb item.expires_at now) (Known-prune now given items k.1)
      (k.0, Known-prune now given items k.1)

Known-insert :
    (t : Bytes) (item : PreviewToken) (given : List (Bytes × PreviewToken))
    (items : Map PreviewToken)
    → Among t item given
    → Known given items
    → Known given (insert t item items)
unfolding insert
Known-insert t item given [] a k = (a, tt)
Known-insert t item given ((u, other) ∷ items) a k =
    either (Known given) (eqb u t) (a, k.1) (k.0, Known-insert t item given items a k.1)

Known-delete :
    (t : Bytes) (given : List (Bytes × PreviewToken)) (items : Map PreviewToken)
    → Known given items
    → Known given (delete t items)
unfolding delete
Known-delete t given [] k = tt
Known-delete t given ((u, other) ∷ items) k =
    either (Known given) (eqb u t) (Known-delete t given items k.1)
      (k.0, Known-delete t given items k.1)

abbrev AmongIf : Bytes → List (Bytes × PreviewToken) → Option PreviewToken → Type 0
AmongIf t given none = Unit
AmongIf t given (some item) = Among t item given

Known-lookup :
    (t : Bytes) (given : List (Bytes × PreviewToken)) (items : Map PreviewToken)
    → Known given items
    → AmongIf t given (lookup t items)
unfolding lookup
Known-lookup t given [] k = tt
Known-lookup t given ((u, item) ∷ items) k =
    either_by (AmongIf t given) (eqb u t) (λ e. subst (λ v. Among v item given) (eqb→eq u t e) k.0)
      (λ e. Known-lookup t given items k.1)

-- What a step keeps and grants.
abbrev Right : List (Bytes × PreviewToken) → Event → Answer × Map PreviewToken → Type 0
Right given event o = Entitled given event o.0 × Known (grants_of event o.0 given) o.1

serve_item-Right :
    (given : List (Bytes × PreviewToken)) (now : ℕ) (query client : Bytes) (o : Option PreviewToken)
    (items : Map PreviewToken)
    → AmongIf (trim_space query) given o
    → Known given items
    → Right given (previews now query client) (serve_item now (trim_space query) client o items)
unfolding serve_item
serve_item-Right given now query client none items a k = (tt, k)
serve_item-Right given now query client (some item) items a k =
    either_by (Right given (previews now query client))
      (not (eqb item.client_uuid client) || ltb item.expires_at now)
      (λ e. (tt, Known-delete (trim_space query) given items k))
      (λ e. (
        (item, a, eqb→eq item.client_uuid client (allowed _ _ e).0, refl, timely (allowed _ _ e).1),
        k,
      ))
  where
    allowed : (a b : Bool) → (not a || b) ≡ false → (a ≡ true) × (b ≡ false)
    allowed a b e = ground arith

    timely : ltb item.expires_at now ≡ false → now ≤ item.expires_at
    timely e = ground arith

step-Right :
    (given : List (Bytes × PreviewToken)) (event : Event) (items : Map PreviewToken)
    → Known given items
    → Right given event (step event items)
unfolding step create_preview_token preview_download
step-Right given (creates now token client path) items k =
    either (Right given (creates now token client path)) (eqb client [] || eqb (trim_space path) [])
      (tt, k)
      (
        tt,
        Known-insert token (granted now client path)
            (grants_of (creates now token client path) (created token) given) (prune now items)
            (inl (refl, refl))
            (Known-later (token, granted now client path) given (prune now items)
              (Known-prune now given items k)),
      )
step-Right given (previews now query client) items k =
    either (Right given (previews now query client)) (eqb client [] || eqb (trim_space query) [])
      (tt, k)
      (serve_item-Right given now query client _ items
        (Known-lookup (trim_space query) given items k) k)

run-AllEntitled_from :
    (given : List (Bytes × PreviewToken)) (events : List Event) (items : Map PreviewToken)
    → Known given items
    → AllEntitled given events items
run-AllEntitled_from given [] items k = tt
run-AllEntitled_from given (event ∷ events) items k =
    let here = step-Right given event items k in
    (
      here.0,
      run-AllEntitled_from (grants_of event (step event items).0 given) events (step event items).1
          here.1,
    )

-- In any sequence of requests, with any times: a path is only served to a request with a token that
-- was made before, for the same client and that path, and that has not expired.
pub previews-AllEntitled : (events : List Event) → AllEntitled [] events []
previews-AllEntitled events = run-AllEntitled_from [] events [] tt
