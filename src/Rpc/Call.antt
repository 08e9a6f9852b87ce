-- ===== src/Rpc/Call.antt =====
-- Execution of methods (pkg/rpc/invoke.go, context.go) and the dispatch of a request under the
-- rights of its caller (web/rpc/jsonrpc/dispatch.go). A handler is a function of the caller's
-- metadata, the request and the state `W` of the rest of the program, which it may change; its two
-- results, the value and the error, may both be nil. The registry and the table of rules are the
-- ones at the time of the call. `text` makes an `any` of a string.
pub mod Rights
use mango_hub.Base.{
  ◌≡◌, Bool, true, false, not, ◌&&◌, ◌||◌, Option, none, some, List, [], ◌∷◌, Bytes, codes, eqb,
  if◌then◌else◌,
}
use mango_hub.Base.Assoc.{Map, lookup}
use mango_hub.Rpc.Message.{
  Error, Request, Response, make_error, validate, success_response, error_response, rpc_version,
  method_not_found, permission_denied,
}
use mango_hub.Rpc.Principal.{
  Role, PrincipalType, anonymous, Principal, new_anonymous_principal, primary_role,
  principal_from_role,
}
use mango_hub.Rpc.Acl.{Acl, check_principal}

-- ContextMeta. `User`, a row of the database, is its key here.
pub record ContextMeta : Type 0 where
  pub principal : Option Principal
  pub permission : Role
  pub user : Option Bytes
  pub user_uuid : Bytes
  pub client_token : Bytes
  pub client_uuid : Bytes
  pub session_token : Bytes
  pub remote_ip : Bytes
  pub user_agent : Bytes
  pub temp_share_valid : Bool

abbrev pub empty_meta : ContextMeta
empty_meta = record {
  principal = none;
  permission = [];
  user = none;
  user_uuid = [];
  client_token = [];
  client_uuid = [];
  session_token = [];
  remote_ip = [];
  user_agent = [];
  temp_share_valid = false;
}

abbrev pub Handler : Type 0 → Type 0 → Type 0
Handler W V = Option ContextMeta → Request V → W → Option V × Option (Error V) × W

-- privateSiteLoginWhitelist
unfoldable pub in_login_whitelist : Bytes → Bool
in_login_whitelist method =
    eqb method (codes "public:getMe")
    || eqb method (codes "public:getPublicSettings")
    || eqb method (codes "public:getVersion")
    || eqb method (codes "public:recordVisitorEvent")

abbrev principal_or : Option Principal → Role → Principal
principal_or (some p) permission = p
principal_or none permission =
    if eqb permission [] then new_anonymous_principal else principal_from_role permission

abbrev is_anonymous : PrincipalType → Bool
is_anonymous anonymous = true
is_anonymous _ = false

-- What Dispatch makes of the metadata that it is given: the caller, and the metadata with its
-- principal and its permission filled in.
unfoldable pub caller_of : Option ContextMeta → Principal
caller_of none = new_anonymous_principal
caller_of (some m) = principal_or m.principal m.permission

unfoldable pub fill_meta : Option ContextMeta → ContextMeta
unfolding caller_of
fill_meta meta =
    let p = caller_of meta in
    let m : ContextMeta = elim meta [ none ↦ empty_meta | some m ↦ m ] in
    record m {
      principal = some p;
      permission = if eqb m.permission [] then primary_role (some p) else m.permission;
    }

module _ {W V : Type 0} (text : Bytes → V) (handlers : Map (Handler W V)) where
  -- The error for a method that no handler has.
  unfoldable pub not_found : Bytes → Error V
  unfolding make_error
  not_found method = make_error method_not_found (codes "method not found") (some (text method))

  -- Invoke, behind Validate and the look-up of the handler.
  invoke_found :
      Option (Error V) → Option (Handler W V) → Request V → W → Option V × Option (Error V) × W
  invoke_found (some e) h req w = (none, some e, w)
  invoke_found none none req w = (none, some (not_found req.method), w)
  invoke_found none (some h) req w = h none req w

  unfoldable pub invoke : Bytes → Option V → W → Option V × Option (Error V) × W
  unfolding invoke_found
  invoke method params w =
      let req : Request V = record {
        version = rpc_version;
        method = method;
        params = params;
        id = none;
      } in
      invoke_found (validate (some req)) (lookup method handlers) req w

  answer : Option V → Option V × Option (Error V) × W → Response V × W
  answer id (result, some jerr, w) = (error_response id jerr.code jerr.message jerr.extra, w)
  answer id (result, none, w) = (success_response id result, w)

  -- CallWithContext, behind Validate and the look-up of the handler.
  call_found :
      Option (Error V) → Option (Handler W V) → Option ContextMeta → Request V → W → Response V × W
  call_found (some e) h meta req w = (error_response req.id e.code e.message e.extra, w)
  call_found none none meta req w = (
    error_response req.id method_not_found (codes "method not found") (some (text req.method)),
    w,
  )
  call_found none (some h) meta req w = answer req.id (h meta req w)

  -- CallWithContext; Call is this without metadata.
  unfoldable pub call_with_context :
      Option ContextMeta → Option V → Bytes → Option V → W → Response V × W
  unfolding call_found answer
  call_with_context meta id method params w =
      let req : Request V = record {
        version = rpc_version;
        method = method;
        params = params;
        id = id;
      } in
      call_found (validate (some req)) (lookup method handlers) meta req w

  -- The test of Dispatch on a private site; `private_site` is the setting, false if it cannot be read.
  unfoldable pub blocked_by_private_site : Bool → Option ContextMeta → Bytes → Bool
  blocked_by_private_site private_site meta method =
      is_anonymous (caller_of meta).type
      && not (in_login_whitelist method)
      && not (fill_meta meta).temp_share_valid
      && private_site

  unfoldable pub dispatch : Acl → Bool → Option ContextMeta → Request V → W → Response V × W
  dispatch acl private_site meta req w =
      if blocked_by_private_site private_site meta req.method
      then (
        error_response req.id permission_denied (codes "Private site enabled, please login first")
            none,
        w,
      )
      else if not (check_principal acl (some (caller_of meta)) req.method)
      then (error_response req.id permission_denied (codes "Permission denied") none, w)
      else call_with_context (some (fill_meta meta)) req.id req.method req.params w

  -- OnInternalRequest
  unfoldable pub on_internal_request : Acl → Bool → Role → Bytes → Option V → W → Response V × W
  unfolding dispatch
  on_internal_request acl private_site group method params w =
      dispatch acl private_site (some (record empty_meta { permission = group }))
        (record { version = rpc_version; method = method; params = params; id = none }) w
