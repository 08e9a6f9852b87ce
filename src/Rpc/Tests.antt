-- ===== src/Rpc/Tests.antt =====
-- Runs of the JSON-RPC package on small inputs, and its theorems at inputs that meet their hypotheses.
use mango_hub.Base.{
  contains_byte, has_prefix, ◌≡◌, refl, ◌↔◌, true, false, some, [], ◌∷◌, codes, arith, eqb,
  if◌then◌else◌,
}
use mango_hub.Rpc.Wildcard.{star, wildcard_match}
use mango_hub.Rpc.Wildcard.Meaning.{Fits, wildcard_match_iff, wildcard_match-star_text}
use mango_hub.Rpc.Principal.{role_guest, role_client, role_admin, level_of, Principal, agent}
use mango_hub.Rpc.Acl.{
  Rule, allow, compute_specificity, default_acl, normalize_method, resolve_min_role,
  check_principal,
}
use mango_hub.Rpc.Acl.Best.{IsBest, In, resolve_min_role-IsBest}
use mango_hub.Rpc.Acl.Table.{
  IsTable, rule_for, rule_of, allow-IsTable, rule_for-allow, resolve_min_role-allow,
}
use mango_hub.Rpc.Acl.Access.{Granted, check_principal_iff}

matches_ping : wildcard_match (codes "rpc.*") (codes "rpc.ping") ≡ true
unfolding wildcard_match
matches_ping = refl

backtracks : wildcard_match (codes "*:get*s") (codes "admin:getSets") ≡ true
unfolding wildcard_match
backtracks = refl

agent_method : resolve_min_role default_acl (codes "client:report") ≡ role_client
unfolding resolve_min_role default_acl wildcard_match contains_byte has_prefix eqb level_of
agent_method = refl

utf8_literal : compute_specificity (0xe7 ∷ 0x94 ∷ 0xa8 ∷ star ∷ []) ≡ (1, true)
unfolding compute_specificity contains_byte
utf8_literal = refl

wildcard_match_iff_example :
    (wildcard_match (codes "a*") (codes "abc") ≡ true) ↔ Fits (codes "a*") (codes "abc")
wildcard_match_iff_example = wildcard_match_iff (codes "a*") (codes "abc") (omega arith)

wildcard_match-star_text_example :
    Fits (star ∷ []) (star ∷ b'x' ∷ []) × (wildcard_match (star ∷ []) (star ∷ b'x' ∷ []) ≡ false)
wildcard_match-star_text_example = wildcard_match-star_text b'x' []

resolve_min_role-IsBest_example :
    IsBest default_acl
      (normalize_method (codes "admin:exec"))
      (resolve_min_role default_acl (codes "admin:exec"))
resolve_min_role-IsBest_example = resolve_min_role-IsBest default_acl (codes "admin:exec")

abbrev open_rule : Rule
open_rule = rule_of (codes "a:*") role_guest

abbrev strict_rule : Rule
strict_rule = rule_of (codes "a:b*") role_admin

In-swap : (p q : Rule) {r : Rule} → In r (p ∷ q ∷ []) → In r (q ∷ p ∷ [])
In-swap p q In.head = In.tail In.head
In-swap p q (In.tail In.head) = In.head
In-swap p q (In.tail (In.tail i)) = elim i [ ]

default_acl-IsTable : IsTable default_acl
unfolding default_acl
default_acl-IsTable = allow-IsTable (codes "admin:*") role_admin _ (
    allow-IsTable (codes "client:*") role_client _ (
      allow-IsTable (codes "rpc:*") role_guest _ (
        allow-IsTable (codes "rpc.*") role_guest _ (
          allow-IsTable (codes "guest:*") role_guest _ (
            allow-IsTable (codes "common:*") role_guest _ (
              allow-IsTable (codes "*") role_admin []
                (record { computed = tt; distinct = tt })))))))

rule_for-allow_example :
    rule_for (codes "admin:*") (allow (codes "admin:*") role_client default_acl) ≡ (
      if eqb (codes "admin:*") (codes "admin:*")
      then some (rule_of (codes "admin:*") role_client)
      else rule_for (codes "admin:*") default_acl)
rule_for-allow_example = rule_for-allow (codes "admin:*") (codes "admin:*") role_client default_acl

resolve_min_role-allow_example :
    resolve_min_role (allow (codes "admin:view") role_guest default_acl) (codes "admin:view")
    ≡ role_guest
unfolding normalize_method contains_byte has_prefix
resolve_min_role-allow_example =
    resolve_min_role-allow (codes "admin:view") role_guest default_acl default_acl-IsTable refl
      (omega arith) (omega arith)

abbrev an_agent : Principal
an_agent = record {
  type = agent;
  user_uuid = [];
  client_uuid = codes "u";
  is_api_key = false;
  roles = role_client ∷ role_admin ∷ [];
}

check_principal_iff_example :
    (check_principal default_acl (some an_agent) (codes "admin:exec") ≡ true)
    ↔ Granted (resolve_min_role default_acl (codes "admin:exec")) an_agent.roles
check_principal_iff_example = check_principal_iff default_acl (some an_agent) (codes "admin:exec")
