-- ===== src/Plugin/Buffer/Unwritten.antt =====
-- A response of which nothing is written, through bufferedResponseWriter (internal/plugin/hook.go).
use mango_hub.Base.{ℕ, ◌≡◌, refl, true, false, some, List, [], ◌∷◌, map, arith}
use mango_hub.Plugin.Client.{
  Header, Client, new_client, is_invalid, is_interim, put_status, put_body, put_flush, Action,
  edit_header, act, run_actions,
}
use mango_hub.Plugin.Buffer.{
  Buffered, new_buffered, write_through, flush, flush_to, buffered_act, buffered_serve,
}

abbrev pub edits : List (Header → Header) → List Action
edits fs = map edit_header fs

abbrev IsBlank : Buffered → Type 0
IsBlank b =
    (b.streaming ≡ false) × (b.hijacked ≡ false) × (b.status_code ≡ 0) × (b.underlying ≡ new_client)

IsBlank-edits :
    (fs : List (Header → Header)) (b : Buffered) → IsBlank b → IsBlank (buffered_serve (edits fs) b)
unfolding buffered_serve buffered_act
IsBlank-edits [] b h = h
IsBlank-edits (f ∷ fs) b h = IsBlank-edits fs (buffered_act (edit_header f) b) (ground arith)

IsBlank-panics :
    (b : Buffered)
    → IsBlank b
    → ((flush_to b).panicked ≡ true) × ((flush b).underlying.panicked ≡ true)
unfolding flush_to flush put_flush write_through put_status put_body is_invalid
IsBlank-panics b h = (ground arith, ground arith)

run_actions-edits :
    (fs : List (Header → Header)) (c : Client)
    → (c.status ≡ new_client.status) × (c.panicked ≡ false) × (c.hijacked ≡ false)
    → (put_flush (run_actions (edits fs) c)).status ≡ some 200
unfolding run_actions act put_flush put_status is_invalid is_interim
run_actions-edits [] c h = ground arith
run_actions-edits (f ∷ fs) c h = run_actions-edits fs (act (edit_header f) c) (ground arith)

-- A handler that at most edits the header before it flushes or returns: the buffer writes the status
-- 0 to the client, which makes net/http panic, while a flush of the client's own writer sends 200.
pub unwritten-panics :
    (limit : ℕ) (fs : List (Header → Header))
    → ((flush_to (buffered_serve (edits fs) (new_buffered limit new_client))).panicked ≡ true)
      × ((flush (buffered_serve (edits fs) (new_buffered limit new_client))).underlying.panicked
          ≡ true)
      × ((put_flush (run_actions (edits fs) new_client)).status ≡ some 200)
unwritten-panics limit fs =
    let (ends, flushes) =
      IsBlank-panics (buffered_serve (edits fs) (new_buffered limit new_client))
        (IsBlank-edits fs (new_buffered limit new_client) (refl, refl, refl, refl)) in
    (ends, flushes, run_actions-edits fs new_client (refl, refl, refl))
