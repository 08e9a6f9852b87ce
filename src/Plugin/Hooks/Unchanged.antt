-- ===== src/Plugin/Hooks/Unchanged.antt =====
-- What the client gets where no response hook succeeds (wrapHandler and runResponseHook of
-- internal/plugin/hook.go).
use mango_hub.Base.{
  ℕ, ◌≡◌, ◌⊎◌, inl, inr, refl, sym, ap, ◌∙◌, true, false, Option, none, some, List, [], ◌∷◌, Bytes,
}
use mango_hub.Plugin.Client.{new_client, Action, run_actions, wire}
use mango_hub.Plugin.Buffer.{Buffered, new_buffered, buffered_serve, flush_to}
use mango_hub.Plugin.Buffer.Transparent.{IsOrderly, flush_to-run_actions}
use mango_hub.Plugin.Hooks.{
  HookEntry, HttpRequest, Changes, Rewrite, Turn, not_queued, timed_out, thrown, done, land,
  run_response_hooks, answer_request, filter_hooks, hooks_of, hook_response, prepare_request,
  conclude, Refusal,
}
use mango_hub.Plugin.Hooks.Guarded.{wrapped, wrap_handler-conclude}

-- The hook leaves the response alone: it did not run, it failed, or it is never done.
abbrev pub IsIdle : Turn Rewrite → Type 0
IsIdle not_queued = false ≡ false
IsIdle (timed_out none) = false ≡ false
IsIdle (thrown message) = false ≡ false
IsIdle _ = false ≡ true

land-idle : (t : Turn Rewrite) (b : Buffered) → IsIdle t → land t b ≡ b
unfolding land
land-idle not_queued b h = refl
land-idle (timed_out none) b h = refl
land-idle (timed_out (some w)) b h = cc
land-idle (thrown message) b h = refl
land-idle (done w) b h = cc

module _ (call_response : HookEntry → HttpRequest → Buffered → Turn Rewrite) (limit : ℕ)
    (next : HttpRequest → List Action) where
  run-idle :
      (hooks : List HookEntry) (r : HttpRequest) (b : Buffered)
      → ((h : HookEntry) → IsIdle (call_response h r b))
      → run_response_hooks call_response hooks r b ≡ b
  unfolding run_response_hooks
  run-idle [] r b idle = refl
  run-idle (h ∷ hooks) r b idle =
      ap (λ b'. run_response_hooks call_response hooks r b')
        (land-idle (call_response h r b) b (idle h))
      ∙ run-idle hooks r b idle

  answer_request-wire :
      (hooks : List HookEntry) (q : HttpRequest)
      → ((h : HookEntry) (b : Buffered) → IsIdle (call_response h q b))
      → IsOrderly false (next q)
      → wire (answer_request call_response limit next hooks q new_client)
        ≡ wire (run_actions (next q) new_client)
  unfolding answer_request
  answer_request-wire [] q idle o = refl
  answer_request-wire (h ∷ hooks) q idle o =
      let b = buffered_serve (next q) (new_buffered limit new_client) in
      ap (λ b'. wire (flush_to b')) (run-idle (h ∷ hooks) q b (λ k. idle k b))
      ∙ flush_to-run_actions limit (next q) o

  conclude-wire :
      (message : Bytes) (hooks : List HookEntry) (step : Refusal ⊎ HttpRequest) (q : HttpRequest)
      → ((h : HookEntry) (b : Buffered) → IsIdle (call_response h q b))
      → IsOrderly false (next q)
      → (conclude call_response limit next message hooks new_client step).handled ≡ some q
      → wire (conclude call_response limit next message hooks new_client step).client
        ≡ wire (run_actions (next q) new_client)
  conclude-wire message hooks (inl x) q idle o e = cc
  conclude-wire message hooks (inr p) q idle o e =
      let same : p ≡ q = cc in rw same (answer_request-wire hooks q idle o)

  module _ (to_lower to_upper : Bytes → Bytes) (parse_url : Bytes → Option Bytes) (message : Bytes)
      (call_request : HookEntry → HttpRequest → Bytes → Turn Changes) where
    -- Where every response hook fails, is never done or did not run, a request that comes to the
    -- handler as `q` is answered with the status, the header and the body that the handler alone
    -- would have sent, if it edits the header before it writes, answers with a status from 200 to
    -- 999 and flushes only what it has begun.
    pub wrap_handler-wire :
        (hooks : List HookEntry) (r q : HttpRequest)
        → r.upgrade ≡ false
        → (wrapped to_lower to_upper parse_url message call_request call_response limit next hooks r
            new_client).handled
          ≡ some q
        → ((h : HookEntry) (b : Buffered) → IsIdle (call_response h q b))
        → IsOrderly false (next q)
        → wire
            (wrapped to_lower to_upper parse_url message call_request call_response limit next hooks
              r new_client).client
          ≡ wire (run_actions (next q) new_client)
    wrap_handler-wire hooks r q e handled idle o =
        let same =
          wrap_handler-conclude to_lower to_upper parse_url message call_request call_response limit
            next hooks r new_client e in
        ap (λ k. wire k.client) same
        ∙ conclude-wire message (filter_hooks to_lower r (hooks_of hook_response hooks))
            (prepare_request to_upper parse_url call_request _ r) q idle o
            (ap (λ k. k.handled) (sym same) ∙ handled)
