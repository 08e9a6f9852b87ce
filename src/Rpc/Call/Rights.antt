-- ===== src/Rpc/Call/Rights.antt =====
-- Whose calls reach a handler (web/rpc/jsonrpc/dispatch.go, pkg/rpc/invoke.go).
use mango_hub.Base.{
  ◌≡◌, ◌≢◌, refl, ◌⊎◌, inl, inr, Bool, true, false, Option, none, some, Bytes, codes, arith,
  Bool-cases, Option-cases, ap, ◌∙◌,
}
use mango_hub.Base.Assoc.{Map, lookup}
use mango_hub.Rpc.Wildcard.Meaning.{NoStar}
use mango_hub.Rpc.Message.{
  Error, Request, Response, validate, success_response, error_response, rpc_version,
  permission_denied,
}
use mango_hub.Rpc.Principal.{
  Role, role_guest, role_client, role_admin, Principal, new_anonymous_principal,
  new_agent_principal,
}
use mango_hub.Rpc.Acl.{Acl, check_principal, default_acl, resolve_min_role}
use mango_hub.Rpc.Acl.Defaults.{default_role, resolve_min_role-default}
use mango_hub.Rpc.Acl.Access.{Granted, check_principal_iff, check_principal-kinds}
use mango_hub.Rpc.Call.{
  ContextMeta, Handler, in_login_whitelist, caller_of, fill_meta, answer, call_found,
  call_with_context, blocked_by_private_site, dispatch,
}

role_admin-ne : (r : Role) → r ≡ role_admin → (r ≡ role_guest) ⊎ (r ≡ role_client) → ⊥
role_admin-ne r e h = ground arith

agent-denied :
    (uuid method : Bytes)
    → NoStar method
    → default_role method ≡ role_admin
    → check_principal default_acl (some (new_agent_principal uuid)) method ≡ false
agent-denied uuid method plain admin =
    elim (Bool-cases (check_principal default_acl (some (new_agent_principal uuid)) method)) [
      | inr n ↦ n
      | inl y ↦ absurd (
          role_admin-ne (resolve_min_role default_acl method)
            (resolve_min_role-default method plain ∙ admin)
            ((check_principal-kinds default_acl uuid method).0.0 y))
    ]

caller_of-some :
    (meta : ContextMeta) (p : Principal) → meta.principal ≡ some p → caller_of (some meta) ≡ p
unfolding caller_of
caller_of-some meta p e = rw e

module _ {W V : Type 0} (text : Bytes → V) (handlers : Map (Handler W V)) where
  -- Not both a result and an error, and the id and the version of the protocol.
  abbrev pub Answers : Option V → Response V → Type 0
  Answers id r = (r.id ≡ id) × (r.version ≡ rpc_version) × ((r.error ≡ none) ⊎ (r.result ≡ none))

  answer-Answers :
      (id : Option V) (o : Option V × Option (Error V) × W)
      → Answers id (answer text handlers id o).0
  unfolding answer error_response success_response
  answer-Answers id (result, some e, w) = (refl, refl, inr refl)
  answer-Answers id (result, none, w) = (refl, refl, inl refl)

  call_found-Answers :
      (e : Option (Error V)) (h : Option (Handler W V)) (meta : Option ContextMeta)
      (req : Request V) (w : W)
      → Answers req.id (call_found text handlers e h meta req w).0
  unfolding call_found error_response
  call_found-Answers (some e) h meta req w = (refl, refl, inr refl)
  call_found-Answers none none meta req w = (refl, refl, inr refl)
  call_found-Answers none (some h) meta req w = answer-Answers req.id (h meta req w)

  call-Answers :
      (meta : Option ContextMeta) (id : Option V) (method : Bytes) (params : Option V) (w : W)
      → Answers id (call_with_context text handlers meta id method params w).0
  unfolding call_with_context
  call-Answers meta id method params w =
      let req : Request V = record {
        version = rpc_version;
        method = method;
        params = params;
        id = id;
      } in
      call_found-Answers (validate (some req)) (lookup method handlers) meta req w

  -- Every request is answered, with its own id, the version of the protocol, and a result or an
  -- error, never both: whoever calls, whatever the method and whatever the handler does.
  pub dispatch-Answers :
      (acl : Acl) (private_site : Bool) (meta : Option ContextMeta) (req : Request V) (w : W)
      → Answers req.id (dispatch text handlers acl private_site meta req w).0
  unfolding dispatch error_response
  dispatch-Answers acl private_site meta req w =
      elim (Bool-cases (blocked_by_private_site text handlers private_site meta req.method)) [
        | inl b ↦ rw b (refl, refl, inr refl)
        | inr b ↦ elim (Bool-cases (check_principal acl (some (caller_of meta)) req.method)) [
          | inl c ↦ rw (b, c) (call-Answers (some (fill_meta meta)) req.id req.method req.params w)
          | inr c ↦ rw (b, c) (refl, refl, inr refl)
        ]
      ]

  call_found-unhandled :
      (e : Option (Error V)) (meta : Option ContextMeta) (req : Request V) (w : W)
      → (call_found text handlers e none meta req w).1 ≡ w
  unfolding call_found
  call_found-unhandled (some e) meta req w = refl
  call_found-unhandled none meta req w = refl

  -- The two refusals of Dispatch.
  pub dispatch-blocked :
      (acl : Acl) (private_site : Bool) (meta : Option ContextMeta) (req : Request V) (w : W)
      → blocked_by_private_site text handlers private_site meta req.method ≡ true
      → dispatch text handlers acl private_site meta req w ≡ (
        error_response req.id permission_denied
            (codes "Private site enabled, please login first")
            none,
        w,
      )
  unfolding dispatch
  dispatch-blocked acl private_site meta req w b = rw b

  pub dispatch-denied :
      (acl : Acl) (private_site : Bool) (meta : Option ContextMeta) (req : Request V) (w : W)
      → blocked_by_private_site text handlers private_site meta req.method ≡ false
      → check_principal acl (some (caller_of meta)) req.method ≡ false
      → dispatch text handlers acl private_site meta req w
        ≡ (error_response req.id permission_denied (codes "Permission denied") none, w)
  unfolding dispatch
  dispatch-denied acl private_site meta req w b c = rw (b, c)

  dispatch-unhandled :
      (acl : Acl) (private_site : Bool) (meta : Option ContextMeta) (req : Request V) (w : W)
      → blocked_by_private_site text handlers private_site meta req.method ≡ false
      → check_principal acl (some (caller_of meta)) req.method ≡ true
      → lookup req.method handlers ≡ none
      → (dispatch text handlers acl private_site meta req w).1 ≡ w
  unfolding dispatch call_with_context
  dispatch-unhandled acl private_site meta req w b c n =
      rw (b, c, n) (call_found-unhandled _ (some (fill_meta meta)) _ w)

  -- What has to hold of a request for a handler to see it.
  pub record Reaches (acl : Acl) (private_site : Bool) (meta : Option ContextMeta) (req : Request V)
      : Type 0 where
    pub open_to : blocked_by_private_site text handlers private_site meta req.method ≡ false
    pub granted : Granted (resolve_min_role acl req.method) (caller_of meta).roles
    pub handled : (h : Handler W V) × (lookup req.method handlers ≡ some h)

  -- A request that changes anything has passed both checks: the site is open to its caller, the
  -- caller holds the role that the method requires (or guests may call it), and the method has a
  -- handler. A request that is refused leaves the state as it was.
  pub dispatch-Reaches :
      (acl : Acl) (private_site : Bool) (meta : Option ContextMeta) (req : Request V) (w : W)
      → (dispatch text handlers acl private_site meta req w).1 ≢ w
      → Reaches acl private_site meta req
  dispatch-Reaches acl private_site meta req w changed =
      elim (Bool-cases (blocked_by_private_site text handlers private_site meta req.method)) [
        | inl b ↦ absurd (changed (ap (λ x. x.1) (dispatch-blocked acl private_site meta req w b)))
        | inr b ↦ elim (Bool-cases (check_principal acl (some (caller_of meta)) req.method)) [
          | inr c ↦
              absurd (changed (ap (λ x. x.1) (dispatch-denied acl private_site meta req w b c)))
          | inl c ↦ elim (Option-cases (lookup req.method handlers)) [
            | inl n ↦ absurd (changed (dispatch-unhandled acl private_site meta req w b c n))
            | inr found ↦ record {
              open_to = b;
              granted = (check_principal_iff acl (some (caller_of meta)) req.method).0 c;
              handled = found;
            }
          ]
        ]
      ]

  -- On a private site an anonymous caller, who has not said to hold a valid share, is refused every
  -- method but the four of the login page, whatever the table of rules grants to guests.
  pub dispatch-private_site :
      (acl : Acl) (req : Request V) (w : W)
      → in_login_whitelist req.method ≡ false
      → dispatch text handlers acl true none req w ≡ (
        error_response req.id permission_denied
            (codes "Private site enabled, please login first")
            none,
        w,
      )
  unfolding blocked_by_private_site caller_of new_anonymous_principal fill_meta
  dispatch-private_site acl req w n = dispatch-blocked acl true none req w (rw n)

  agent-not_blocked :
      (private_site : Bool) (uuid : Bytes) (meta : ContextMeta) (req : Request V)
      → meta.principal ≡ some (new_agent_principal uuid)
      → blocked_by_private_site text handlers private_site (some meta) req.method ≡ false
  unfolding blocked_by_private_site new_agent_principal
  agent-not_blocked private_site uuid meta req p =
      rw (caller_of-some meta (new_agent_principal uuid) p)

  -- With the built-in rules an agent never gets at an administrator's method: the request is refused
  -- and changes nothing, on a private site and on an open one.
  pub dispatch-agent_admin :
      (private_site : Bool) (uuid : Bytes) (meta : ContextMeta) (req : Request V) (w : W)
      → meta.principal ≡ some (new_agent_principal uuid)
      → NoStar req.method
      → default_role req.method ≡ role_admin
      → dispatch text handlers default_acl private_site (some meta) req w
        ≡ (error_response req.id permission_denied (codes "Permission denied") none, w)
  dispatch-agent_admin private_site uuid meta req w p plain admin =
      dispatch-denied default_acl private_site (some meta) req w
        (agent-not_blocked private_site uuid meta req p)
        (rw (caller_of-some meta (new_agent_principal uuid) p)
          (agent-denied uuid req.method plain admin))
