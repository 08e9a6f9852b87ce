-- ===== src/Rpc/Acl/Defaults.antt =====
-- The rules that init declares, as a table from namespaces to roles (pkg/rpc/permission.go).
use mango_hub.Base.{
  ℕ, ◌≡◌, ◌≢◌, ◌↔◌, refl, inl, inr, Bool, true, false, ◌&&◌, ◌||◌, none, some, [], ◌∷◌, ◌++◌, Bytes,
  codes, arith, Bool-cases, All-append, eqb, eqb→eq, ap, sym, subst, ◌∙◌, has_prefix, contains_byte,
  if◌then◌else◌,
}
use mango_hub.Rpc.Wildcard.{star, wildcard_match}
use mango_hub.Rpc.Wildcard.Meaning.{Fits, done, same, skip, eat, NoStar, wildcard_match_iff}
use mango_hub.Rpc.Principal.{Role, role_guest, role_client, role_admin, level_of}
use mango_hub.Rpc.Acl.{
  Found, default_namespace, before_colon, namespace_of, default_acl, consider, resolve_loop,
  normalize_method, role_of_found, resolve_min_role,
}

Fits-any : (s : Bytes) → Fits (star ∷ []) s
Fits-any [] = skip refl done
Fits-any (d ∷ s) = eat refl (Fits-any s)

prefix→Fits : (q s : Bytes) → has_prefix s q ≡ true → Fits (q ++ star ∷ []) s
unfolding has_prefix
prefix→Fits [] s h = Fits-any s
prefix→Fits (c ∷ q) [] h = cc
prefix→Fits (c ∷ q) (d ∷ s) h = rw e (same (prefix→Fits q s (ground arith)))
  where
    e : c ≡ d
    e = ground arith

Fits→prefix : (q s : Bytes) → NoStar q → Fits (q ++ star ∷ []) s → has_prefix s q ≡ true
unfolding has_prefix
Fits→prefix [] s n f = refl
Fits→prefix (c ∷ q) s n (same f) = ground (arith, Fits→prefix q _ n.1 f)
Fits→prefix (c ∷ q) s n (skip e f) = absurd (n.0 e)
Fits→prefix (c ∷ q) s n (eat e f) = absurd (n.0 e)

eq_of_iff : (a b : Bool) → ((a ≡ true) ↔ (b ≡ true)) → a ≡ b
eq_of_iff true b e = ground (arith, e.0 refl)
eq_of_iff false b e = ground (arith, e.1)

-- A pattern with one `*`, at its end, matches the texts with its prefix.
wildcard_match-prefix :
    (q s : Bytes) → NoStar q → NoStar s → wildcard_match (q ++ star ∷ []) s ≡ has_prefix s q
wildcard_match-prefix q s nq ns =
    let e = wildcard_match_iff (q ++ star ∷ []) s ns in
    eq_of_iff _ _ (λ m. Fits→prefix q s nq (e.0 m), λ h. e.1 (prefix→Fits q s h))

-- The prefix `ns:` is that of the methods of the namespace.
has_prefix-namespace :
    (ns s : Bytes)
    → contains_byte ns b':' ≡ false
    → has_prefix s (ns ++ b':' ∷ []) ≡ (contains_byte s b':' && eqb (before_colon s) ns)
unfolding has_prefix contains_byte before_colon eqb
has_prefix-namespace [] [] h = refl
has_prefix-namespace [] (d ∷ s) h = ground arith
has_prefix-namespace (c ∷ ns) [] h = refl
has_prefix-namespace (c ∷ ns) (d ∷ s) h = ground (arith, has_prefix-namespace ns s)

before_colon-prefix :
    (q s : Bytes)
    → contains_byte q b':' ≡ false
    → has_prefix s q ≡ true
    → has_prefix (before_colon s) q ≡ true
unfolding has_prefix contains_byte before_colon
before_colon-prefix [] s h p = refl
before_colon-prefix (c ∷ q) [] h p = p
before_colon-prefix (c ∷ q) (d ∷ s) h p = ground (arith, before_colon-prefix q s)

-- What the comments of init say: the role of each namespace.
unfoldable pub role_of_namespace : Bytes → Role
role_of_namespace ns =
    if eqb ns (codes "common") || eqb ns (codes "guest") || eqb ns (codes "rpc")
    then role_guest
    else if eqb ns (codes "client")
    then role_client
    else role_admin

-- The internal methods `rpc.…`, which are in no namespace, are open to guests.
unfoldable pub default_role : Bytes → Role
unfolding role_of_namespace
default_role method =
    if has_prefix method (codes "rpc.") then role_guest else role_of_namespace (namespace_of method)

-- The loop over the default rules, with the outcome of each pattern but `*` given.
abbrev loop_of : Bool → Bool → Bool → Bool → Bool → Bool → Role
loop_of common guest rpc_dot rpc client admin =
    let step = λ (b : Bool) (spec : ℕ) (role : Role) (f : Found).
      if b
      then consider
          (record { pattern_of = []; min_role = role; specificity = spec; has_wildcard = true }) f
      else f in
    role_of_found (
      step admin 6 role_admin (
        step client 7 role_client (
          step rpc 4 role_guest (
            step rpc_dot 4 role_guest
              (step guest 6 role_guest (step common 7 role_guest (some (0, role_admin))))))))

resolve-default :
    (m : Bytes)
    → NoStar m
    → role_of_found (resolve_loop m default_acl none)
      ≡ loop_of
          (has_prefix m (codes "common:"))
          (has_prefix m (codes "guest:"))
          (has_prefix m (codes "rpc."))
          (has_prefix m (codes "rpc:"))
          (has_prefix m (codes "client:"))
          (has_prefix m (codes "admin:"))
unfolding resolve_loop default_acl has_prefix consider
resolve-default m plain = simp (
  wildcard_match-prefix [] m tt plain,
  wildcard_match-prefix (codes "common:") m (omega arith) plain,
  wildcard_match-prefix (codes "guest:") m (omega arith) plain,
  wildcard_match-prefix (codes "rpc.") m (omega arith) plain,
  wildcard_match-prefix (codes "rpc:") m (omega arith) plain,
  wildcard_match-prefix (codes "client:") m (omega arith) plain,
  wildcard_match-prefix (codes "admin:") m (omega arith) plain,
)

abbrev Agrees : Bytes → Bool → Type 0
Agrees ns rpc_dot =
    loop_of (eqb ns (codes "common")) (eqb ns (codes "guest")) rpc_dot (eqb ns (codes "rpc"))
      (eqb ns (codes "client")) (eqb ns (codes "admin"))
    ≡ (if rpc_dot then role_guest else role_of_namespace ns)

Agrees-known :
    (ns q : Bytes) (rpc_dot : Bool)
    → (rpc_dot ≡ true → has_prefix ns (codes "rpc.") ≡ true)
    → has_prefix q (codes "rpc.") ≡ false
    → Agrees q false
    → eqb ns q ≡ true
    → Agrees ns rpc_dot
Agrees-known ns q true d n c e =
    absurd (cc (d refl, n, ap (λ x. has_prefix x (codes "rpc.")) (eqb→eq ns q e)))
Agrees-known ns q false d n c e = subst (λ x. Agrees x false) (sym (eqb→eq ns q e)) c

Agrees-unknown :
    (ns : Bytes) (rpc_dot : Bool)
    → eqb ns (codes "common") ≡ false
    → eqb ns (codes "guest") ≡ false
    → eqb ns (codes "rpc") ≡ false
    → eqb ns (codes "client") ≡ false
    → eqb ns (codes "admin") ≡ false
    → Agrees ns rpc_dot
unfolding consider role_of_namespace level_of
Agrees-unknown ns rpc_dot e1 e2 e3 e4 e5 = rw (e1, e2, e3, e4, e5) (no_rule rpc_dot)
  where
    no_rule :
        (b : Bool)
        → loop_of false false b false false false ≡ (if b then role_guest else role_admin)
    no_rule true = refl
    no_rule false = refl

-- The loop for a method of the namespace `ns`; only a name `rpc.…` matches the rule with the dot.
default-loop :
    (ns : Bytes) (rpc_dot : Bool)
    → (rpc_dot ≡ true → has_prefix ns (codes "rpc.") ≡ true)
    → Agrees ns rpc_dot
unfolding consider role_of_namespace level_of has_prefix eqb
default-loop ns rpc_dot d = elim (Bool-cases (eqb ns (codes "common"))) [
  | inl e ↦ Agrees-known ns (codes "common") rpc_dot d refl refl e
  | inr e1 ↦ elim (Bool-cases (eqb ns (codes "guest"))) [
    | inl e ↦ Agrees-known ns (codes "guest") rpc_dot d refl refl e
    | inr e2 ↦ elim (Bool-cases (eqb ns (codes "rpc"))) [
      | inl e ↦ Agrees-known ns (codes "rpc") rpc_dot d refl refl e
      | inr e3 ↦ elim (Bool-cases (eqb ns (codes "client"))) [
        | inl e ↦ Agrees-known ns (codes "client") rpc_dot d refl refl e
        | inr e4 ↦ elim (Bool-cases (eqb ns (codes "admin"))) [
          | inl e ↦ Agrees-known ns (codes "admin") rpc_dot d refl refl e
          | inr e5 ↦ Agrees-unknown ns rpc_dot e1 e2 e3 e4 e5
        ]
      ]
    ]
  ]
]

-- A method with a colon: its prefixes are those of its namespace.
resolve-colon :
    (m : Bytes)
    → NoStar m
    → contains_byte m b':' ≡ true
    → role_of_found (resolve_loop m default_acl none)
      ≡ (if has_prefix m (codes "rpc.") then role_guest else role_of_namespace (before_colon m))
unfolding contains_byte
resolve-colon m plain colon =
    resolve-default m plain
    ∙ simp
        (
          has_prefix-namespace (codes "common") m refl,
          has_prefix-namespace (codes "guest") m refl,
          has_prefix-namespace (codes "rpc") m refl,
          has_prefix-namespace (codes "client") m refl,
          has_prefix-namespace (codes "admin") m refl,
          colon,
        )
        (default-loop (before_colon m) (has_prefix m (codes "rpc."))
          (before_colon-prefix (codes "rpc.") m refl))

has_prefix-no_colon :
    (q s : Bytes)
    → contains_byte s b':' ≡ false
    → contains_byte q b':' ≡ true
    → has_prefix s q ≡ false
unfolding has_prefix contains_byte
has_prefix-no_colon [] s h k = cc
has_prefix-no_colon (c ∷ q) [] h k = refl
has_prefix-no_colon (c ∷ q) (d ∷ s) h k = ground (arith, has_prefix-no_colon q s)

-- An internal name without a colon matches the rules `*` and `rpc.*` only.
resolve-internal :
    (m : Bytes)
    → NoStar m
    → contains_byte m b':' ≡ false
    → has_prefix m (codes "rpc.") ≡ true
    → role_of_found (resolve_loop m default_acl none) ≡ role_guest
unfolding contains_byte consider level_of
resolve-internal m plain colon internal =
    resolve-default m plain
    ∙ simp (
      has_prefix-no_colon (codes "common:") m colon refl,
      has_prefix-no_colon (codes "guest:") m colon refl,
      has_prefix-no_colon (codes "rpc:") m colon refl,
      has_prefix-no_colon (codes "client:") m colon refl,
      has_prefix-no_colon (codes "admin:") m colon refl,
      internal,
    )

-- A bare name is looked up with the prefix `common:`.
resolve-bare :
    (m : Bytes)
    → NoStar m
    → role_of_found (resolve_loop (default_namespace ++ codes ":" ++ m) default_acl none)
      ≡ role_of_namespace default_namespace
unfolding contains_byte before_colon has_prefix
resolve-bare m plain =
    resolve-colon (default_namespace ++ codes ":" ++ m)
      (All-append (λ c. c ≢ star) (codes "common:") m (omega arith) plain) refl

-- The role that the built-in rules require of each method without a `*`, before any is declared:
-- guests have the internal names `rpc.…`, the namespaces common, guest and rpc and the names with
-- no namespace, agents the namespace client; every other method requires an administrator.
pub resolve_min_role-default :
    (method : Bytes) → NoStar method → resolve_min_role default_acl method ≡ default_role method
unfolding resolve_min_role default_role normalize_method namespace_of
resolve_min_role-default m plain = elim (Bool-cases (contains_byte m b':')) [
  | inl colon ↦ rw (colon) (resolve-colon m plain colon)
  | inr bare ↦ elim (Bool-cases (has_prefix m (codes "rpc."))) [
    | inl internal ↦ rw (bare, internal) (resolve-internal m plain bare internal)
    | inr other ↦ rw (bare, other) (resolve-bare m plain)
  ]
]
