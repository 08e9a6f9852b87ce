-- ===== src/Rpc/Acl.antt =====
-- pkg/rpc/permission.go: the table of access rules, aclList, as the list that the operations are
-- given and return, and the resolution of the role that a method requires.
pub mod Best
pub mod Table
pub mod Defaults
pub mod Access
use mango_hub.Base.{
  ℕ, zero, suc, ◌+◌, ◌*◌, ◌-◌, ◌%◌, ◌^◌, Bool, true, false, not, ◌&&◌, ◌||◌, Option, none, some,
  List, [], ◌∷◌, ◌++◌, length, drop, Bytes, codes, eqb, has_prefix, contains_byte, ltb, leb, ◌==◌,
  if◌then◌else◌,
}
use mango_hub.Rpc.Wildcard.{star, wildcard_match}
use mango_hub.Rpc.Principal.{
  Role, role_guest, role_client, role_admin, level_of, Principal, new_anonymous_principal, has_role,
  principal_from_role,
}

-- aclRule
pub record Rule : Type 0 where
  pub pattern_of : Bytes
  pub min_role : Role
  pub specificity : ℕ
  pub has_wildcard : Bool

abbrev pub Acl : Type 0
Acl = List Rule

abbrev pub default_namespace : Bytes
default_namespace = codes "common"

-- NamespaceOf
unfoldable pub before_colon : Bytes → Bytes
before_colon [] = []
before_colon (c ∷ s) = if c == b':' then [] else c ∷ before_colon s

unfoldable pub namespace_of : Bytes → Bytes
unfolding before_colon
namespace_of method = if contains_byte method b':' then before_colon method else default_namespace

abbrev is_cont : ℕ → Bool
is_cont c = leb 0x80 c && leb c 0xbf

-- The width of the rune that `range` reads at the front of a string: 1 for a byte that starts no
-- valid encoding. The bounds are those of UTF-8, with no surrogate and nothing above 0x10ffff.
unfoldable pub rune_width : Bytes → ℕ
rune_width [] = 1
rune_width (c ∷ []) = 1
rune_width (c ∷ d ∷ []) = if leb 0xc2 c && leb c 0xdf && is_cont d then 2 else 1
rune_width (c ∷ d ∷ e ∷ []) =
    if leb 0xc2 c && leb c 0xdf && is_cont d
    then 2
    else if leb 0xe0 c
        && leb c 0xef
        && is_cont d
        && is_cont e
        && (not (c == 0xe0) || leb 0xa0 d)
        && (not (c == 0xed) || leb d 0x9f)
    then 3
    else 1
rune_width (c ∷ d ∷ e ∷ f ∷ s) =
    if leb 0xc2 c && leb c 0xdf && is_cont d
    then 2
    else if leb 0xe0 c
        && leb c 0xef
        && is_cont d
        && is_cont e
        && (not (c == 0xe0) || leb 0xa0 d)
        && (not (c == 0xed) || leb d 0x9f)
    then 3
    else if leb 0xf0 c
        && leb c 0xf4
        && is_cont d
        && is_cont e
        && is_cont f
        && (not (c == 0xf0) || leb 0x90 d)
        && (not (c == 0xf4) || leb d 0x8f)
    then 4
    else 1

-- The loop of computeSpecificity over the runes. `inside` counts the bytes left of a rune that was
-- read; a rune is `*` exactly if its first byte is.
unfoldable pub count_literal : ℕ → Bytes → ℕ
count_literal inside [] = 0
count_literal (suc inside) (c ∷ s) = count_literal inside s
count_literal zero (c ∷ s) = (if c == star then 0 else 1) + count_literal (rune_width (c ∷ s) - 1) s

abbrev pub exact_bonus : ℕ
exact_bonus = 2 ^ 20

unfoldable pub compute_specificity : Bytes → ℕ × Bool
unfolding count_literal rune_width
compute_specificity pat =
    if contains_byte pat star then (count_literal 0 pat, true) else (exact_bonus, false)

-- The loop of Allow: a rule of the same pattern is replaced where it stands.
unfoldable pub put_rule : Rule → Acl → Acl
put_rule rule [] = rule ∷ []
put_rule rule (r ∷ acl) =
    if eqb r.pattern_of rule.pattern_of then rule ∷ acl else r ∷ put_rule rule acl

unfoldable pub allow : Bytes → Role → Acl → Acl
unfolding put_rule
allow pat min_role acl =
    let (spec, wild) = compute_specificity pat in
    put_rule
      (record { pattern_of = pat; min_role = min_role; specificity = spec; has_wildcard = wild })
      acl

-- RegisterNamespace
unfoldable pub register_namespace : Bytes → Role → Acl → Acl
unfolding allow
register_namespace namespace role acl = allow (namespace ++ codes ":*") role acl

-- init
unfoldable pub default_acl : Acl
unfolding allow compute_specificity contains_byte eqb
default_acl = allow (codes "admin:*") role_admin (
    allow (codes "client:*") role_client (
      allow (codes "rpc:*") role_guest (
        allow (codes "rpc.*") role_guest (
          allow (codes "guest:*") role_guest
            (allow (codes "common:*") role_guest (allow (codes "*") role_admin []))))))

-- bestSpec, bestRole and matched; bestSpec == -1 exactly while nothing has matched.
abbrev pub Found : Type 0
Found = Option (ℕ × Role)

-- The test of the loop of resolveMinRole, and its assignments.
unfoldable pub consider : Rule → Found → Found
consider r none = some (r.specificity, r.min_role)
consider r (some (best_spec, best_role)) =
    if ltb best_spec r.specificity
      || r.specificity == best_spec && ltb (level_of best_role) (level_of r.min_role)
    then some (r.specificity, r.min_role)
    else some (best_spec, best_role)

unfoldable pub resolve_loop : Bytes → Acl → Found → Found
unfolding consider
resolve_loop method [] found = found
resolve_loop method (r ∷ acl) found =
    resolve_loop method acl (if wildcard_match r.pattern_of method then consider r found else found)

-- A bare name belongs to the default namespace.
unfoldable pub normalize_method : Bytes → Bytes
normalize_method method =
    if not (contains_byte method b':') && not (has_prefix method (codes "rpc."))
    then default_namespace ++ codes ":" ++ method
    else method

abbrev pub role_of_found : Found → Role
role_of_found none = role_admin
role_of_found (some (_, role)) = role

unfoldable pub resolve_min_role : Acl → Bytes → Role
unfolding resolve_loop normalize_method
resolve_min_role acl method = role_of_found (resolve_loop (normalize_method method) acl none)

-- RequiredRole
unfoldable pub required_role : Acl → Bytes → Role
unfolding resolve_min_role
required_role acl method = resolve_min_role acl method

abbrev pub or_anonymous : Option Principal → Principal
or_anonymous none = new_anonymous_principal
or_anonymous (some p) = p

unfoldable pub check_principal : Acl → Option Principal → Bytes → Bool
check_principal acl p method =
    let min = resolve_min_role acl method in
    if eqb min role_guest then true else has_role (some (or_anonymous p)) min

-- CheckPermission
unfoldable pub check_permission : Acl → Role → Bytes → Bool
unfolding check_principal
check_permission acl group method = check_principal acl (some (principal_from_role group)) method
