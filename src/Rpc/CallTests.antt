-- ===== src/Rpc/CallTests.antt =====
-- Runs of the parser, the registry and the dispatch of calls, and their theorems at concrete inputs.
use mango_hub.Base.{
  if◌then◌else◌, ℕ, ◌+◌, ◌≡◌, refl, ◌⊎◌, inl, inr, true, none, some, List, [], ◌∷◌, Bytes, codes,
  arith, eqb, contains_byte, has_prefix, trim_space,
}
use mango_hub.Base.Assoc.{Map, lookup}
use mango_hub.Rpc.Message.{Request, validate, success_response, rpc_version}
use mango_hub.Rpc.Parse.{parse_requests}
use mango_hub.Rpc.Principal.{
  role_guest, role_admin, new_agent_principal, new_user_principal, level_of,
}
use mango_hub.Rpc.Acl.{default_acl, resolve_min_role, check_principal}
use mango_hub.Rpc.Wildcard.{wildcard_match}
use mango_hub.Rpc.Call.{
  ContextMeta, empty_meta, Handler, fill_meta, caller_of, in_login_whitelist, call_with_context,
  dispatch,
}
use mango_hub.Rpc.Call.Rights.{Reaches, dispatch-Reaches}
use mango_hub.Rpc.Registry.{MethodMeta, Registry, method_empty, named, register, register_with_meta}
use mango_hub.Rpc.Registry.Laws.{register-error, register_with_meta-padded}

-- A decoder that reads a call of `a` from any object, and one that finds no batch.
abbrev call_a : Request Bytes
call_a = record { version = rpc_version; method = codes "a"; params = none; id = some (codes "1") }

abbrev decode_a : Bytes → Bytes ⊎ Request Bytes
decode_a body = inr call_a

abbrev decode_none : Bytes → Bytes ⊎ List (Request Bytes)
decode_none body = inl (codes "bad")

parses_object : parse_requests (λ s. s) decode_a decode_none (codes " {} ") ≡ inr (call_a ∷ [])
unfolding parse_requests validate trim_space eqb
parses_object = refl

-- A handler that counts its calls.
abbrev counting : Handler ℕ Bytes
counting meta req w = (some (codes "ok"), none, w + 1)

abbrev table : Map (Handler ℕ Bytes)
table = (codes "admin:exec", counting) ∷ (codes "common:ping", counting) ∷ []

abbrev request : Bytes → Request Bytes
request method = record {
  version = rpc_version;
  method = method;
  params = none;
  id = some (codes "7");
}

abbrev as_user : ContextMeta
as_user = record empty_meta { principal = some (new_user_principal (codes "u")) }

abbrev as_agent : ContextMeta
as_agent = record empty_meta { principal = some (new_agent_principal (codes "c")) }

runs_for_user :
    dispatch (λ s. s) table default_acl true (some as_user) (request (codes "admin:exec")) 0
    ≡ (success_response (some (codes "7")) (some (codes "ok")), 1)
unfolding dispatch call_with_context validate trim_space eqb has_prefix contains_byte
    check_principal default_acl resolve_min_role wildcard_match level_of fill_meta lookup
    new_user_principal mango_hub.Rpc.Call.blocked_by_private_site mango_hub.Rpc.Principal.has_role
runs_for_user = refl

dispatch-Reaches_example :
    Reaches (λ s. s) table default_acl true (some as_user) (request (codes "admin:exec"))
dispatch-Reaches_example =
    dispatch-Reaches (λ s. s) table default_acl true (some as_user) (request (codes "admin:exec")) 0
      (rw runs_for_user (omega arith))

abbrev empty : Registry ℕ Bytes
empty = record { handlers = []; metas = []; sensitive = [] }

abbrev described : MethodMeta Bytes
described = record (named {V = Bytes} (codes "m")) { summary = codes "s" }

registers : (register (codes " m ") 5 empty).0 ≡ none
unfolding register trim_space eqb has_prefix lookup
registers = refl

register-error_example : (register (codes "  ") 5 empty).1 ≡ empty
unfolding register trim_space eqb
register-error_example = register-error (codes "  ") 5 empty {e = method_empty} refl

register_with_meta-padded_example :
    (lookup
        (trim_space (codes " m "))
        (register_with_meta (codes " m ") 5 (some described) empty).1.handlers
      ≡ some 5)
    × (lookup
          (trim_space (codes " m "))
          (register_with_meta (codes " m ") 5 (some described) empty).1.metas
        ≡ some (named (trim_space (codes " m "))))
    × (lookup (codes " m ") (register_with_meta (codes " m ") 5 (some described) empty).1.metas
        ≡ some
            (if eqb described.name [] then record described { name = codes " m " } else described))
unfolding trim_space lookup
register_with_meta-padded_example =
    register_with_meta-padded (codes " m ") 5 described empty registers (λ e. ground arith) refl
