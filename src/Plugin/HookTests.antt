-- ===== src/Plugin/HookTests.antt =====
-- Tests and examples for internal/plugin/hook.go.
use mango_hub.Base.{
  ◌≡◌, ◌↔◌, refl, true, false, Bool, Option, none, some, inr, List, [], ◌∷◌, Bytes, codes, eqb,
  has_prefix, trim_space,
}
use mango_hub.Plugin.Client.{
  Header, add_header, new_client, put_flush, Action, edit_header, write_call, flush_call,
  run_actions, wire,
}
use mango_hub.Plugin.Buffer.{Buffered, new_buffered, flush, flush_to, buffered_serve}
use mango_hub.Plugin.Buffer.Unwritten.{edits, unwritten-panics}
use mango_hub.Plugin.Matcher.{HookMatcher, matches_path, parse_hook_matcher}
use mango_hub.Plugin.Matcher.Subtree.{Covers, segments, matches_path_iff}
use mango_hub.Plugin.Hooks.{
  HookEntry, hook_request, hook_response, HttpRequest, Changes, Rewrite, Turn, thrown, done,
  Outcome, wrap_handler, filter_hooks, read_all, max_hook_body_limit,
}
use mango_hub.Base.Int.{pos}
use mango_hub.Plugin.Hooks.{max_int64, request_with_body}
use mango_hub.Plugin.Hooks.Reading.{wrap_handler-unread}
use mango_hub.Plugin.Hooks.Guarded.{
  Runs, IsAllowed, wrapped, matching_request, wrap_handler-handled_iff,
}
use mango_hub.Plugin.Hooks.Refused.{IsRefused, wrap_handler-IsRefused}
use mango_hub.Plugin.Hooks.Unchanged.{wrap_handler-wire}

abbrev same : Bytes → Bytes
same s = s

abbrev everywhere : Bytes → Bool
everywhere s = true

abbrev api : HookMatcher
api = record { method = codes "POST"; path = codes "/api"; prefix = true }

a_filter : parse_hook_matcher same same everywhere (codes " POST /api/* ") ≡ inr api
unfolding parse_hook_matcher trim_space
a_filter = refl

a_subtree : matches_path same (some api) (codes "/api/nodes") ≡ true
unfolding matches_path eqb has_prefix
a_subtree = refl

matches_path_iff_example :
    (matches_path same (some api) (codes "/api/nodes") ≡ true)
    ↔ Covers true (segments (codes "/api")) (segments (codes "/api/nodes"))
matches_path_iff_example = matches_path_iff same api (codes "/api/nodes")

abbrev hook : HookEntry
hook = record { short = codes "p"; kind = hook_request; fn = 0; matcher = none; body_limit = pos 2 }

abbrev reply : HookEntry
reply = record hook { kind = hook_response }

abbrev request : HttpRequest
request = record {
  method = codes "POST";
  path = codes "/api";
  request_uri = codes "/api";
  header = [];
  content_length = 2;
  body = some (codes "hi");
  upgrade = false;
}

abbrev too_long : HttpRequest
too_long = record request { body = some (codes "high") }

abbrev changes : Changes
changes = record { method = none; url = none; headers = none; body = some (codes "ho") }

abbrev on_request : HookEntry → HttpRequest → Bytes → Turn Changes
on_request h r body = done changes

abbrev on_response : HookEntry → HttpRequest → Buffered → Turn Rewrite
on_response h r b = thrown (codes "oops")

abbrev echo : HttpRequest → List Action
echo r =
    edit_header (add_header (codes "Content-Type") (codes "text/plain"))
    ∷ write_call (codes "hello")
    ∷ flush_call
    ∷ write_call (codes "bye")
    ∷ []

abbrev parse_none : Bytes → Option Bytes
parse_none s = none

abbrev run : List HookEntry → HttpRequest → Outcome
run hooks r =
    wrapped same same parse_none (codes "too long") on_request on_response 8 echo hooks r new_client

abbrev changed : HttpRequest
changed = record request { body = some (codes "ho") }

wrap_handler-handled_iff_example :
    ((run (hook ∷ reply ∷ []) request).handled ≡ some changed)
    ↔ IsAllowed same parse_none on_request
        (matching_request same (hook ∷ reply ∷ []) request)
        request
        changed
wrap_handler-handled_iff_example =
    wrap_handler-handled_iff same same parse_none (codes "too long") on_request on_response 8 echo
      (hook ∷ reply ∷ []) request changed new_client refl

wrap_handler-IsRefused_example :
    IsRefused
      (read_all (max_hook_body_limit (matching_request same (hook ∷ []) too_long)) too_long.body)
      (run (hook ∷ []) too_long).client.status
unfolding wrap_handler filter_hooks read_all max_hook_body_limit
wrap_handler-IsRefused_example =
    wrap_handler-IsRefused same same parse_none (codes "too long") on_request on_response 8 echo
      (hook ∷ []) too_long refl refl

wrap_handler-wire_example :
    wire (run (hook ∷ reply ∷ []) request).client ≡ wire (run_actions (echo changed) new_client)
unfolding wrap_handler filter_hooks read_all max_hook_body_limit
wrap_handler-wire_example =
    wrap_handler-wire on_response 8 echo same same parse_none (codes "too long") on_request
      (hook ∷ reply ∷ []) request changed refl refl (λ h b. refl) (refl, (refl, refl))

abbrev typed : List (Header → Header)
typed = add_header (codes "Content-Type") (codes "text/plain") ∷ []

unwritten-panics_example :
    ((flush_to (buffered_serve (edits typed) (new_buffered 8 new_client))).panicked ≡ true)
    × ((flush (buffered_serve (edits typed) (new_buffered 8 new_client))).underlying.panicked
        ≡ true)
    × ((put_flush (run_actions (edits typed) new_client)).status ≡ some 200)
unwritten-panics_example = unwritten-panics 8 typed

abbrev unbounded : HookEntry
unbounded = record hook { body_limit = pos max_int64 }

abbrev keep_body : HookEntry → HttpRequest → Bytes → Turn Changes
keep_body h r body = done (record changes { body = none })

wrap_handler-unread_example :
    ((wrapped same same parse_none
        (codes "too long")
        keep_body
        on_response
        8
        echo
        (unbounded ∷ [])
        request
        new_client).handled
      ≡ some (request_with_body request []))
    ↔ ((left : HttpRequest) × (last : Bytes) × Runs same parse_none keep_body
          (unbounded ∷ [])
          request
          []
          left
          last
        × (request_with_body request [] ≡ request_with_body left last))
unfolding filter_hooks max_hook_body_limit
wrap_handler-unread_example =
    wrap_handler-unread same same parse_none (codes "too long") keep_body on_response 8 echo
      (unbounded ∷ []) [] unbounded request (request_with_body request []) new_client refl refl refl

-- The body is not read.
an_empty_body :
    (wrapped same same parse_none
      (codes "too long")
      keep_body
      on_response
      8
      echo
      (unbounded ∷ [])
      request
      new_client).handled
    ≡ some (request_with_body request [])
unfolding wrap_handler filter_hooks read_all max_hook_body_limit
an_empty_body = refl
