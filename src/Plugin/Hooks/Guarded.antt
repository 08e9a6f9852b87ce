-- ===== src/Plugin/Hooks/Guarded.antt =====
-- Which requests come to the handler behind the hooks (wrapHandler of internal/plugin/hook.go).
use mango_hub.Base.{
  ℕ, ◌≡◌, ◌↔◌, ◌⊎◌, inl, inr, refl, ap, ◌∙◌, false, Option, none, some, List, [], ◌∷◌, arith, Bytes,
}
use mango_hub.Base.Branch.{if_false}
use mango_hub.Plugin.Client.{Client, Action}
use mango_hub.Plugin.Buffer.{Buffered}
use mango_hub.Plugin.Hooks.{
  HookEntry, HttpRequest, Changes, Rewrite, Turn, not_queued, timed_out, thrown, done, HookChain,
  failed, passed, after_turn, or_else, change_request, run_request_hooks, hooks_of, hook_request,
  hook_response, filter_hooks, read_all, max_hook_body_limit, request_with_body, Refusal,
  chain_result, run_on_body, prepare_request, conclude, wrap_handler, Outcome,
}

-- Every hook is done, one after the other, each on the request and the body that the last one left.
pub data Runs (to_upper : Bytes → Bytes) (parse_url : Bytes → Option Bytes)
    (call : HookEntry → HttpRequest → Bytes → Turn Changes)
    : List HookEntry → HttpRequest → Bytes → HttpRequest → Bytes → Type 0 where
  ended : {r : HttpRequest} {body : Bytes} → Runs to_upper parse_url call [] r body r body
  ran :
      {h : HookEntry} {hooks : List HookEntry} {r q : HttpRequest} {body last : Bytes} (c : Changes)
      → call h r body ≡ done c
      → Runs to_upper parse_url call hooks
          (change_request to_upper parse_url c r)
          (or_else c.body body)
          q
          last
      → Runs to_upper parse_url call (h ∷ hooks) r body q last

module _ (to_upper : Bytes → Bytes) (parse_url : Bytes → Option Bytes)
    (call : HookEntry → HttpRequest → Bytes → Turn Changes) where
  Runs-run :
      {hooks : List HookEntry} {r q : HttpRequest} {body last : Bytes}
      → Runs to_upper parse_url call hooks r body q last
      → run_request_hooks to_upper parse_url call hooks r body ≡ passed q last
  unfolding run_request_hooks
  Runs-run ended = refl
  Runs-run (ran {h} {hooks} {r} {q} {body} c e more) =
      ap
        (after_turn h (λ c.
          run_request_hooks to_upper parse_url call hooks (change_request to_upper parse_url c r)
            (or_else c.body body)))
        e
      ∙ Runs-run more

  after_turn-passed :
      (h : HookEntry) (go : Changes → HookChain) (t : Turn Changes) (q : HttpRequest) (last : Bytes)
      → after_turn h go t ≡ passed q last
      → (c : Changes) × (t ≡ done c) × (go c ≡ passed q last)
  after_turn-passed h go not_queued q last e = cc
  after_turn-passed h go (timed_out late) q last e = cc
  after_turn-passed h go (thrown message) q last e = cc
  after_turn-passed h go (done c) q last e = (c, refl, e)

  run-Runs :
      (hooks : List HookEntry) (r q : HttpRequest) (body last : Bytes)
      → run_request_hooks to_upper parse_url call hooks r body ≡ passed q last
      → Runs to_upper parse_url call hooks r body q last
  unfolding run_request_hooks
  run-Runs [] r q body last e =
      let same : r ≡ q = cc in let same_body : body ≡ last = cc in rw (← same, ← same_body) ended
  run-Runs (h ∷ hooks) r q body last e =
      let (c, called, e') = after_turn-passed h _ (call h r body) q last e in
      ran c called
        (run-Runs hooks (change_request to_upper parse_url c r) q (or_else c.body body) last e')

  -- ReadAll gives the hooks a body at their limit, and every hook is done: the handler is given what
  -- they leave. Without hooks it is given the request as it came.
  abbrev pub IsAllowed : List HookEntry → HttpRequest → HttpRequest → Type 0
  IsAllowed [] r q = q ≡ r
  IsAllowed (h ∷ hooks) r q =
      (body last : Bytes) × (left : HttpRequest) × (read_all (max_hook_body_limit (h ∷ hooks))
          r.body
        ≡ some body)
      × Runs to_upper parse_url call (h ∷ hooks) r body left last
      × (q ≡ request_with_body left last)

  chain_result-inr :
      (k : HookChain) (q : HttpRequest)
      → chain_result k ≡ inr q
      → (left : HttpRequest) × (last : Bytes) × (k ≡ passed left last)
        × (q ≡ request_with_body left last)
  chain_result-inr (failed h) q e = cc
  chain_result-inr (passed left last) q e = (left, last, refl, cc)

  run_on_body_iff :
      (hooks : List HookEntry) (r q : HttpRequest) (read : Option Bytes)
      → (run_on_body to_upper parse_url call hooks r read ≡ inr q) ↔ (
          (body last : Bytes) × (left : HttpRequest) × (read ≡ some body)
          × Runs to_upper parse_url call hooks r body left last
          × (q ≡ request_with_body left last))
  run_on_body_iff hooks r q none = (λ e. absurd (ground arith), λ h. absurd (ground arith))
  run_on_body_iff hooks r q (some body) = (
    λ e.
        let (left, last, k, same) = chain_result-inr _ q e in
        (body, last, left, refl, run-Runs hooks r left body last k, same),
    λ (body', last, left, e, runs, same).
        let read : body ≡ body' = cc in rw (same, read) (ap chain_result (Runs-run runs)),
  )

  prepare_iff :
      (hooks : List HookEntry) (r q : HttpRequest)
      → (prepare_request to_upper parse_url call hooks r ≡ inr q) ↔ IsAllowed hooks r q
  unfolding prepare_request
  prepare_iff [] r q = (λ e. cc, λ e. cc)
  prepare_iff (h ∷ hooks) r q =
      run_on_body_iff (h ∷ hooks) r q (read_all (max_hook_body_limit (h ∷ hooks)) r.body)

conclude-handled_iff :
    (call_response : HookEntry → HttpRequest → Buffered → Turn Rewrite) (limit : ℕ)
    (next : HttpRequest → List Action) (message : Bytes) (hooks : List HookEntry) (c : Client)
    (step : Refusal ⊎ HttpRequest) (q : HttpRequest)
    → ((conclude call_response limit next message hooks c step).handled ≡ some q) ↔ (step ≡ inr q)
conclude-handled_iff call_response limit next message hooks c (inl x) q = (λ e. cc, λ e. cc)
conclude-handled_iff call_response limit next message hooks c (inr p) q = (λ e. cc, λ e. cc)

abbrev pub matching_request : (Bytes → Bytes) → List HookEntry → HttpRequest → List HookEntry
matching_request to_lower hooks r = filter_hooks to_lower r (hooks_of hook_request hooks)

module _ (to_lower to_upper : Bytes → Bytes) (parse_url : Bytes → Option Bytes) (message : Bytes)
    (call_request : HookEntry → HttpRequest → Bytes → Turn Changes)
    (call_response : HookEntry → HttpRequest → Buffered → Turn Rewrite) (limit : ℕ)
    (next : HttpRequest → List Action) where
  abbrev pub wrapped : List HookEntry → HttpRequest → Client → Outcome
  wrapped hooks r c =
      wrap_handler to_lower to_upper parse_url message call_request call_response limit next hooks r
        c

  abbrev pub concluded : List HookEntry → HttpRequest → Client → Outcome
  concluded hooks r c =
      conclude call_response limit next message
        (filter_hooks to_lower r (hooks_of hook_response hooks)) c
        (prepare_request to_upper parse_url call_request (matching_request to_lower hooks r) r)

  pub wrap_handler-conclude :
      (hooks : List HookEntry) (r : HttpRequest) (c : Client)
      → r.upgrade ≡ false
      → wrapped hooks r c ≡ concluded hooks r c
  unfolding wrap_handler
  wrap_handler-conclude hooks r c e = if_false (λ o. o ≡ concluded hooks r c) _ r.upgrade e refl

  -- A request that is no upgrade comes to the handler, as the request `q`, exactly if each of the
  -- request hooks that match it is done, one after the other on what the last one left, from the body
  -- that ReadAll gives at their limit, if it gives one; `q` is then what they leave, or the request
  -- itself if none matches.
  pub wrap_handler-handled_iff :
      (hooks : List HookEntry) (r q : HttpRequest) (c : Client)
      → r.upgrade ≡ false
      → ((wrapped hooks r c).handled ≡ some q)
        ↔ IsAllowed to_upper parse_url call_request (matching_request to_lower hooks r) r q
  wrap_handler-handled_iff hooks r q c e =
      let (here, there) = conclude-handled_iff call_response limit next message _ c _ q in
      let (down, up) =
        prepare_iff to_upper parse_url call_request (matching_request to_lower hooks r) r q in
      rw (wrap_handler-conclude hooks r c e) (λ h. down (here h), λ h. there (up h))
