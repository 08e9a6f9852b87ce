-- ===== src/Plugin/Hooks/Refused.antt =====
-- How a request that does not come to the handler is answered (wrapHandler of
-- internal/plugin/hook.go).
use mango_hub.Base.{
  ℕ, ◌≡◌, ◌⊎◌, inl, inr, refl, sym, ap, ◌∙◌, false, Option, none, some, List, [], ◌∷◌, arith, Bytes,
  codes,
}
use mango_hub.Plugin.Client.{
  Client, new_client, Action, is_invalid, is_interim, bodiless, put_status, put_body,
}
use mango_hub.Plugin.Buffer.{Buffered}
use mango_hub.Plugin.Hooks.{
  HookEntry, HttpRequest, Changes, Rewrite, Turn, HookChain, failed, passed, read_all,
  max_hook_body_limit, http_error, Refusal, body_unread, hook_failed, refuse_request, chain_result,
  run_on_body, prepare_request, conclude,
}
use mango_hub.Plugin.Hooks.Guarded.{wrapped, matching_request, wrap_handler-conclude}

http_error-status :
    (message : Bytes) (code : ℕ)
    → (code ≡ 413) ⊎ (code ≡ 500)
    → (http_error message code new_client).status ≡ some code
unfolding http_error put_status put_body is_invalid is_interim bodiless
http_error-status message code h = ground arith

-- Why a request was refused, and the status that says so.
abbrev pub IsRefused : Option Bytes → Option ℕ → Type 0
IsRefused none status = status ≡ some 413
IsRefused (some body) status = status ≡ some 500

chain_result-inl :
    (k : HookChain) (x : Refusal) → chain_result k ≡ inl x → (h : HookEntry) × (x ≡ hook_failed h)
chain_result-inl (failed h) x e = (h, cc)
chain_result-inl (passed left last) x e = cc

refuse_request-hook_failed :
    (message : Bytes) (x : Refusal) (h : HookEntry)
    → x ≡ hook_failed h
    → (refuse_request message x new_client).status ≡ some 500
refuse_request-hook_failed message x h e =
    rw e (http_error-status (codes "plugin request hook failed") 500 (inr refl))

run_on_body-IsRefused :
    (to_upper : Bytes → Bytes) (parse_url : Bytes → Option Bytes)
    (call : HookEntry → HttpRequest → Bytes → Turn Changes) (message : Bytes)
    (hooks : List HookEntry) (r : HttpRequest) (read : Option Bytes) (x : Refusal)
    → run_on_body to_upper parse_url call hooks r read ≡ inl x
    → IsRefused read (refuse_request message x new_client).status
run_on_body-IsRefused to_upper parse_url call message hooks r none x e =
    let same : x ≡ body_unread = cc in rw same (http_error-status message 413 (inl refl))
run_on_body-IsRefused to_upper parse_url call message hooks r (some body) x e =
    let (h, same) = chain_result-inl _ x e in refuse_request-hook_failed message x h same

conclude-none :
    (call_response : HookEntry → HttpRequest → Buffered → Turn Rewrite) (limit : ℕ)
    (next : HttpRequest → List Action) (message : Bytes) (hooks : List HookEntry) (c : Client)
    (step : Refusal ⊎ HttpRequest)
    → (conclude call_response limit next message hooks c step).handled ≡ none
    → (x : Refusal) × (step ≡ inl x)
      × ((conclude call_response limit next message hooks c step).client
          ≡ refuse_request message x c)
conclude-none call_response limit next message hooks c (inl x) e = (x, refl, refl)
conclude-none call_response limit next message hooks c (inr p) e = cc

module _ (to_lower to_upper : Bytes → Bytes) (parse_url : Bytes → Option Bytes) (message : Bytes)
    (call_request : HookEntry → HttpRequest → Bytes → Turn Changes)
    (call_response : HookEntry → HttpRequest → Buffered → Turn Rewrite) (limit : ℕ)
    (next : HttpRequest → List Action) where
  prepare_request-IsRefused :
      (hooks : List HookEntry) (r : HttpRequest) (x : Refusal)
      → prepare_request to_upper parse_url call_request hooks r ≡ inl x
      → IsRefused
          (read_all (max_hook_body_limit hooks) r.body)
          (refuse_request message x new_client).status
  unfolding prepare_request
  prepare_request-IsRefused [] r x e = cc
  prepare_request-IsRefused (h ∷ hooks) r x e =
      run_on_body-IsRefused to_upper parse_url call_request message (h ∷ hooks) r _ x e

  -- A request that is no upgrade and does not come to the handler is answered, on a client to which
  -- nothing has been written, with the status 413, where ReadAll gives an error for its body at the
  -- limit of the request hooks that match it, and with 500 otherwise.
  pub wrap_handler-IsRefused :
      (hooks : List HookEntry) (r : HttpRequest)
      → r.upgrade ≡ false
      → (wrapped to_lower to_upper parse_url message call_request call_response limit next hooks r
          new_client).handled
        ≡ none
      → IsRefused
          (read_all (max_hook_body_limit (matching_request to_lower hooks r)) r.body)
          (wrapped to_lower to_upper parse_url message call_request call_response limit next hooks r
            new_client).client.status
  wrap_handler-IsRefused hooks r e unhandled =
      let same =
        wrap_handler-conclude to_lower to_upper parse_url message call_request call_response limit
          next hooks r new_client e in
      let (x, stopped, client) =
        conclude-none call_response limit next message _ new_client _
          (ap (λ o. o.handled) (sym same) ∙ unhandled) in
      rw (same, client) (prepare_request-IsRefused (matching_request to_lower hooks r) r x stopped)
