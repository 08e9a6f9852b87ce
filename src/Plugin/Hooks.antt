-- ===== src/Plugin/Hooks.antt =====
-- The hooks around the HTTP handler: hookEntry, filterHooks, maxHookBodyLimit and wrapHandler of
-- internal/plugin/hook.go. The JavaScript of a hook, the handler behind the hooks and url.Parse are
-- parameters. The body of a request is what its reader gives, or `none` where reading it fails.
pub mod Reading
pub mod Guarded
pub mod Refused
pub mod Unchanged
use mango_hub.Base.Int.{ℤ, pos, negsuc, ltb_ℤ}
use mango_hub.Base.{
  ℕ, zero, suc, ◌+◌, ◌-◌, ◌*◌, ◌^◌, ◌≡◌, Bool, true, false, ◌||◌, not, Option, none, some, ◌⊎◌, inl,
  inr, List, [], ◌∷◌, ◌++◌, keep, length, take, ltb, ◌==◌, if◌then◌else◌, Bytes, codes, eqb,
  trim_space,
}
use mango_hub.Plugin.Client.{
  Header, add_header, set_header, del_header, Client, put_status, put_body, Action, run_actions,
}
use mango_hub.Plugin.Buffer.{
  Buffered, new_buffered, buffered_serve, buffered_status, apply, flush_to,
}
use mango_hub.Plugin.Matcher.{HookMatcher, matches_request}

pub data HookKind : Type 0 where
  hook_request : HookKind
  hook_response : HookKind

abbrev pub same_kind : HookKind → HookKind → Bool
same_kind hook_request hook_request = true
same_kind hook_response hook_response = true
same_kind _ _ = false

-- A hook; `fn` names its function in the plugin.
pub record HookEntry : Type 0 where
  pub short : Bytes
  pub kind : HookKind
  pub fn : ℕ
  pub matcher : Option HookMatcher
  pub body_limit : ℤ

pub record HttpRequest : Type 0 where
  pub method : Bytes
  pub path : Bytes
  pub request_uri : Bytes
  pub header : Header
  pub content_length : ℕ
  pub body : Option Bytes
  pub upgrade : Bool

-- A value that the script puts into the object of headers.
pub data HeaderValue : Type 0 where
  text : Bytes → HeaderValue
  texts : List Bytes → HeaderValue
  printed : Bytes → HeaderValue

-- The fields of the object that the script has left behind, where they are defined.
pub record Changes : Type 0 where
  pub method : Option Bytes
  pub url : Option Bytes
  pub headers : Option (List (Bytes × HeaderValue))
  pub body : Option Bytes

pub record Rewrite : Type 0 where
  pub status_code : Option ℕ
  pub headers : Option (List (Bytes × HeaderValue))
  pub body : Option Bytes

-- A turn of the plugin's event loop: not queued, not done in time, an error thrown, or done. A
-- callback that was not done in time goes on, and may still be done before the response is sent.
pub data Turn (A : Type 0) : Type 0 where
  not_queued : Turn A
  timed_out : Option A → Turn A
  thrown : Bytes → Turn A
  done : A → Turn A

unfoldable pub filter_hooks : (Bytes → Bytes) → HttpRequest → List HookEntry → List HookEntry
unfolding matches_request
filter_hooks to_lower r hooks = keep (λ h. matches_request to_lower h.matcher r.method r.path) hooks

-- hooksOf
abbrev pub hooks_of : HookKind → List HookEntry → List HookEntry
hooks_of kind hooks = keep (λ h. same_kind h.kind kind) hooks

abbrev pub default_max_http_body_bytes : ℕ
default_max_http_body_bytes = 32 * 2 ^ 20

unfoldable pub largest_limit : ℤ → List HookEntry → ℤ
largest_limit limit [] = limit
largest_limit limit (h ∷ hooks) =
    largest_limit (if ltb_ℤ limit h.body_limit then h.body_limit else limit) hooks

unfoldable pub max_hook_body_limit : List HookEntry → ℤ
unfolding largest_limit
max_hook_body_limit hooks =
    let limit = largest_limit (pos 0) hooks in
    if ltb_ℤ limit (pos 1) then pos default_max_http_body_bytes else limit

abbrev pub max_int64 : ℕ
max_int64 = 2 ^ 63 - 1

-- limit + 1 on int64, which wraps around at the largest one.
unfoldable pub one_more : ℤ → ℤ
one_more (pos n) = if n == max_int64 then negsuc max_int64 else pos (n + 1)
one_more (negsuc zero) = pos 0
one_more (negsuc (suc n)) = negsuc n

-- io.ReadAll of an io.LimitReader, which reads nothing where the limit is not positive.
unfoldable pub read_limited : ℤ → Option Bytes → Option Bytes
read_limited (negsuc n) body = some []
read_limited (pos zero) body = some []
read_limited (pos (suc n)) none = none
read_limited (pos (suc n)) (some body) = some (take (suc n) body)

abbrev pub check_size : ℤ → Option Bytes → Option Bytes
check_size limit none = none
check_size limit (some data_read) =
    if ltb_ℤ limit (pos (length data_read)) then none else some data_read

-- httpbody.ReadAll: it reads one byte more than the limit to see that there are more.
unfoldable pub read_all : ℤ → Option Bytes → Option Bytes
unfolding one_more read_limited
read_all limit body = check_size limit (read_limited (one_more limit) body)

abbrev pub add_values : Bytes → List Bytes → Header → Header
add_values name [] header = header
add_values name (v ∷ vs) header = add_values name vs (add_header name v header)

-- normalizeHeader, on names in canonical form.
unfoldable pub normalize_header : List (Bytes × HeaderValue) → Header → Header
normalize_header [] header = header
normalize_header ((name, text v) ∷ raw) header = normalize_header raw (set_header name v header)
normalize_header ((name, texts vs) ∷ raw) header = normalize_header raw (add_values name vs header)
normalize_header ((name, printed v) ∷ raw) header = normalize_header raw (set_header name v header)

-- What one hook makes of a request: its fields one after the other.
abbrev set_method : (Bytes → Bytes) → Option Bytes → HttpRequest → HttpRequest
set_method to_upper none r = r
set_method to_upper (some value) r =
    let method = to_upper (trim_space value) in
    if eqb method [] then r else record r { method = method }

abbrev set_parsed : Bytes → Option Bytes → HttpRequest → HttpRequest
set_parsed raw none r = r
set_parsed raw (some path) r = record r { path = path; request_uri = raw }

abbrev set_url : (Bytes → Option Bytes) → Option Bytes → HttpRequest → HttpRequest
set_url parse_url none r = r
set_url parse_url (some value) r =
    let raw = trim_space value in if eqb raw [] then r else set_parsed raw (parse_url raw) r

abbrev set_headers : Option (List (Bytes × HeaderValue)) → HttpRequest → HttpRequest
set_headers none r = r
set_headers (some raw) r = record r { header = normalize_header raw [] }

abbrev pub or_else : {A : Type 0} → Option A → A → A
or_else none a = a
or_else (some b) a = b

-- The hooks that ran, and then the one that failed, or the request with its body.
pub data HookChain : Type 0 where
  failed : HookEntry → HookChain
  passed : HttpRequest → Bytes → HookChain

-- The chain goes on with what a hook that is done has left, and ends at any other.
abbrev pub after_turn : HookEntry → (Changes → HookChain) → Turn Changes → HookChain
after_turn h go not_queued = failed h
after_turn h go (timed_out late) = failed h
after_turn h go (thrown message) = failed h
after_turn h go (done c) = go c

module _ (to_upper : Bytes → Bytes) (parse_url : Bytes → Option Bytes) where
  unfoldable pub change_request : Changes → HttpRequest → HttpRequest
  unfolding eqb trim_space normalize_header
  change_request c r =
      set_headers c.headers (set_url parse_url c.url (set_method to_upper c.method r))

  -- runRequestHook for each hook, up to the first error.
  unfoldable pub run_request_hooks :
      (HookEntry → HttpRequest → Bytes → Turn Changes)
      → List HookEntry
      → HttpRequest
      → Bytes
      → HookChain
  unfolding change_request
  run_request_hooks call [] r body = passed r body
  run_request_hooks call (h ∷ hooks) r body =
      after_turn h (λ c. run_request_hooks call hooks (change_request c r) (or_else c.body body))
        (call h r body)

unfoldable pub rewrite_response : Rewrite → Buffered → Buffered
unfolding apply normalize_header
rewrite_response w b =
    apply (or_else w.status_code (buffered_status b))
      (elim w.headers [ none ↦ b.header | some raw ↦ normalize_header raw [] ])
      (or_else w.body b.body) b

-- What a turn has done to the response: an error is logged, and the response stays.
unfoldable pub land : Turn Rewrite → Buffered → Buffered
unfolding rewrite_response
land not_queued b = b
land (timed_out none) b = b
land (timed_out (some w)) b = rewrite_response w b
land (thrown message) b = b
land (done w) b = rewrite_response w b

module _ (call : HookEntry → HttpRequest → Buffered → Turn Rewrite) where
  -- runResponseHook for each hook.
  unfoldable pub run_response_hooks : List HookEntry → HttpRequest → Buffered → Buffered
  unfolding land
  run_response_hooks [] r b = b
  run_response_hooks (h ∷ hooks) r b = run_response_hooks hooks r (land (call h r b) b)

-- The request that the handler was given, if it was called, and what the client has got.
pub record Outcome : Type 0 where
  pub handled : Option HttpRequest
  pub client : Client

-- http.Error
unfoldable pub http_error : Bytes → ℕ → Client → Client
unfolding put_status put_body
http_error message code c =
    let header = set_header (codes "X-Content-Type-Options") (codes "nosniff") (
      set_header (codes "Content-Type") (codes "text/plain; charset=utf-8")
        (del_header (codes "Content-Length") c.header)) in
    put_body (message ++ b'\n' ∷ []) (put_status code (record c { header = header }))

-- requestWithBody
abbrev pub request_with_body : HttpRequest → Bytes → HttpRequest
request_with_body r body = record r { content_length = length body; body = some body }

-- Why a request does not come to the handler.
pub data Refusal : Type 0 where
  body_unread : Refusal
  hook_failed : HookEntry → Refusal

abbrev pub refuse_request : Bytes → Refusal → Client → Client
refuse_request message body_unread c = http_error message 413 c
refuse_request message (hook_failed h) c = http_error (codes "plugin request hook failed") 500 c

abbrev chain_result : HookChain → Refusal ⊎ HttpRequest
chain_result (failed h) = inl (hook_failed h)
chain_result (passed r body) = inr (request_with_body r body)

module _ (to_upper : Bytes → Bytes) (parse_url : Bytes → Option Bytes)
    (call_request : HookEntry → HttpRequest → Bytes → Turn Changes) where
  abbrev pub run_on_body : List HookEntry → HttpRequest → Option Bytes → Refusal ⊎ HttpRequest
  run_on_body hooks r none = inl body_unread
  run_on_body hooks r (some body) =
      chain_result (run_request_hooks to_upper parse_url call_request hooks r body)

  -- The request hooks, and the request that they leave for the handler.
  unfoldable pub prepare_request : List HookEntry → HttpRequest → Refusal ⊎ HttpRequest
  unfolding run_request_hooks read_all max_hook_body_limit
  prepare_request [] r = inr r
  prepare_request (h ∷ hooks) r =
      run_on_body (h ∷ hooks) r (read_all (max_hook_body_limit (h ∷ hooks)) r.body)

module _ (call_response : HookEntry → HttpRequest → Buffered → Turn Rewrite) (limit : ℕ)
    (next : HttpRequest → List Action) where
  -- The handler, and the response hooks on what it has written.
  unfoldable pub answer_request : List HookEntry → HttpRequest → Client → Client
  unfolding run_actions buffered_serve run_response_hooks flush_to
  answer_request [] req c = run_actions (next req) c
  answer_request (h ∷ hooks) req c = flush_to (
      run_response_hooks call_response (h ∷ hooks) req
        (buffered_serve (next req) (new_buffered limit c)))

  -- `read_message` is the text of the error of httpbody.ReadAll.
  abbrev pub conclude : Bytes → List HookEntry → Client → Refusal ⊎ HttpRequest → Outcome
  conclude read_message hooks c (inl refusal) = record {
    handled = none;
    client = refuse_request read_message refusal c;
  }
  conclude read_message hooks c (inr req) = record {
    handled = some req;
    client = answer_request hooks req c;
  }

module _ (to_lower to_upper : Bytes → Bytes) (parse_url : Bytes → Option Bytes)
    (read_message : Bytes) (call_request : HookEntry → HttpRequest → Bytes → Turn Changes)
    (call_response : HookEntry → HttpRequest → Buffered → Turn Rewrite) (limit : ℕ)
    (next : HttpRequest → List Action) where
  -- wrapHandler: the hooks that the manager has, the request, and the client.
  unfoldable pub wrap_handler : List HookEntry → HttpRequest → Client → Outcome
  unfolding prepare_request answer_request filter_hooks
  wrap_handler hooks r c =
      if r.upgrade
      then record { handled = some r; client = run_actions (next r) c }
      else conclude call_response limit next read_message
          (filter_hooks to_lower r (hooks_of hook_response hooks)) c
          (prepare_request to_upper parse_url call_request
            (filter_hooks to_lower r (hooks_of hook_request hooks)) r)
