-- ===== src/Rpc/Acl/Access.antt =====
-- Who may call what: CheckPrincipal and CheckPermission over any table of rules
-- (pkg/rpc/permission.go, pkg/rpc/principal.go).
use mango_hub.Base.{
  ◌≤◌, ◌≡◌, ◌↔◌, ◌⊎◌, refl, inl, inr, true, false, Option, none, some, List, [], ◌∷◌, Bytes, arith,
  Bool-cases, eqb, eqb→eq, eqb_refl, eqb_iff, ltb, subst, sym,
}
use mango_hub.Rpc.Principal.{
  Role, role_guest, role_client, role_admin, level_of, Principal, new_anonymous_principal,
  new_agent_principal, new_user_principal, new_api_key_principal, primary_from, primary_of,
  primary_role, has_role_in, has_role,
}
use mango_hub.Rpc.Acl.{Acl, or_anonymous, resolve_min_role, check_principal}

pub data Holds (role : Role) : List Role → Type 0 where
  first : {rs : List Role} → Holds role (role ∷ rs)
  later : {r : Role} {rs : List Role} → Holds role rs → Holds role (r ∷ rs)

has_role_in→Holds : (rs : List Role) (role : Role) → has_role_in rs role ≡ true → Holds role rs
unfolding has_role_in
has_role_in→Holds [] role h = cc
has_role_in→Holds (r ∷ rs) role h = elim (Bool-cases (eqb r role)) [
  | inl e ↦ subst (λ x. Holds x (r ∷ rs)) (eqb→eq r role e) first
  | inr e ↦ later (has_role_in→Holds rs role (rw e at h))
]

Holds→has_role_in : (role : Role) {rs : List Role} → Holds role rs → has_role_in rs role ≡ true
unfolding has_role_in
Holds→has_role_in role first = rw (eqb_refl role)
Holds→has_role_in role (later h) = ground (arith, Holds→has_role_in role h)

has_role_in_iff : (rs : List Role) (role : Role) → (has_role_in rs role ≡ true) ↔ Holds role rs
has_role_in_iff rs role = (has_role_in→Holds rs role, Holds→has_role_in role)

primary_from-max :
    (best : Role) (rs : List Role)
    → Holds (primary_from best rs) (best ∷ rs)
      × (level_of best ≤ level_of (primary_from best rs))
      × ((r : Role) → Holds r rs → level_of r ≤ level_of (primary_from best rs))
unfolding primary_from
primary_from-max best [] = (first, omega arith, λ r h. elim h [ ])
primary_from-max best (q ∷ rs) = elim (Bool-cases (ltb (level_of best) (level_of q))) [
  | inl e ↦
      let (held, above, all) = primary_from-max q rs in
      rw e (later held, ground arith, λ r h. below q above all h)
  | inr e ↦
      let (held, above, all) = primary_from-max best rs in
      rw e (skip_second held, above, λ r h. below best (ground arith) all h)
]
  where
    below :
        {r : Role} (b : Role)
        → level_of q ≤ level_of (primary_from b rs)
        → ((r : Role) → Holds r rs → level_of r ≤ level_of (primary_from b rs))
        → Holds r (q ∷ rs)
        → level_of r ≤ level_of (primary_from b rs)
    below b k all first = k
    below b k all (later h) = all _ h

    skip_second : {r : Role} → Holds r (best ∷ rs) → Holds r (best ∷ q ∷ rs)
    skip_second first = first
    skip_second (later h) = later (later h)

-- PrimaryRole: of a principal with a role, a role that it holds, and of the highest level among
-- them; a nil principal and one without roles count as guests.
pub primary_role-max :
    (p : Principal) (r : Role)
    → Holds r p.roles
    → Holds (primary_role (some p)) p.roles
      × (level_of r ≤ level_of (primary_role (some p)))
      × (primary_role none ≡ role_guest)
unfolding primary_role
primary_role-max p r h = highest p.roles h
  where
    highest :
        (rs : List Role)
        → Holds r rs
        → Holds (primary_of rs) rs
          × (level_of r ≤ level_of (primary_of rs))
          × (role_guest ≡ role_guest)
    highest [] h = elim h [ ]
    highest (q ∷ rs) first = let (held, above, all) = primary_from-max q rs in (held, above, refl)
    highest (q ∷ rs) (later h) =
        let (held, above, all) = primary_from-max q rs in (held, all r h, refl)

abbrev roles_of : Option Principal → List Role
roles_of none = role_guest ∷ []
roles_of (some p) = p.roles

abbrev pub Granted : Role → List Role → Type 0
Granted required roles = (required ≡ role_guest) ⊎ Holds required roles

-- CheckPrincipal grants a call exactly if the method requires no more than a guest, or the
-- principal holds the very role that it requires; a nil principal is an anonymous guest.
pub check_principal_iff :
    (acl : Acl) (p : Option Principal) (method : Bytes)
    → (check_principal acl p method ≡ true) ↔ Granted (resolve_min_role acl method) (roles_of p)
unfolding check_principal has_role new_anonymous_principal
check_principal_iff acl p method = elim (Bool-cases (eqb required role_guest)) [
  | inl e ↦ rw e (λ _. inl (eqb→eq required role_guest e), λ _. refl)
  | inr e ↦ rw e (through p e)
]
  where
    required : Role
    required = resolve_min_role acl method

    granted :
        (rs : List Role)
        → eqb required role_guest ≡ false
        → (has_role_in rs required ≡ true) ↔ Granted required rs
    granted rs e = (
      λ h. inr (has_role_in→Holds rs required h),
      elim [
        | inl g ↦ cc (e, (eqb_iff required role_guest).1 g)
        | inr h ↦ Holds→has_role_in required h
      ],
    )

    through :
        (p : Option Principal)
        → eqb required role_guest ≡ false
        → (has_role (some (or_anonymous p)) required ≡ true) ↔ Granted required (roles_of p)
    through none e = granted (role_guest ∷ []) e
    through (some q) e = granted q.roles e

Holds-one→eq : {r q : Role} → Holds r (q ∷ []) → r ≡ q
Holds-one→eq first = refl
Holds-one→eq (later h) = elim h [ ]

Holds-one : (r q : Role) → Holds r (q ∷ []) ↔ (r ≡ q)
Holds-one r q = (Holds-one→eq, λ e. subst (λ x. Holds r (x ∷ [])) e first)

-- Exactly the calls of the methods that require `role`, or that every guest may make.
abbrev pub Only : Acl → Principal → Role → Bytes → Type 0
Only acl p role method =
    (check_principal acl (some p) method ≡ true)
    ↔ ((resolve_min_role acl method ≡ role_guest) ⊎ (resolve_min_role acl method ≡ role))

one_role :
    (acl : Acl) (p : Principal) (role : Role) (method : Bytes)
    → p.roles ≡ role ∷ []
    → Only acl p role method
one_role acl p role method e =
    let i = check_principal_iff acl (some p) method in
    let o = Holds-one (resolve_min_role acl method) role in (λ h. split (i.0 h), λ h. i.1 (join h))
  where
    split :
        Granted (resolve_min_role acl method) p.roles
        → (resolve_min_role acl method ≡ role_guest) ⊎ (resolve_min_role acl method ≡ role)
    split (inl g) = inl g
    split (inr h) =
        inr ((Holds-one _ role).0 (subst (λ rs. Holds (resolve_min_role acl method) rs) e h))

    join :
        (resolve_min_role acl method ≡ role_guest) ⊎ (resolve_min_role acl method ≡ role)
        → Granted (resolve_min_role acl method) p.roles
    join (inl g) = inl g
    join (inr h) =
        inr (subst (λ rs. Holds (resolve_min_role acl method) rs) (sym e) ((Holds-one _ role).1 h))

-- Agents and administrators are orthogonal: over any table of rules an agent may call the methods
-- open to guests and those that require the role client, and no other; a user and an API key those
-- open to guests and those that require the role admin; an anonymous principal those open to guests.
pub check_principal-kinds :
    (acl : Acl) (uuid method : Bytes)
    → Only acl (new_agent_principal uuid) role_client method
      × Only acl (new_user_principal uuid) role_admin method
      × Only acl new_api_key_principal role_admin method
      × Only acl new_anonymous_principal role_guest method
unfolding new_agent_principal new_user_principal new_api_key_principal new_anonymous_principal
check_principal-kinds acl uuid method = (
  one_role acl (new_agent_principal uuid) role_client method refl,
  one_role acl (new_user_principal uuid) role_admin method refl,
  one_role acl new_api_key_principal role_admin method refl,
  one_role acl new_anonymous_principal role_guest method refl,
)
