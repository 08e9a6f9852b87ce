-- ===== src/Rpc/Principal.antt =====
-- pkg/rpc/principal.go and the roles of pkg/rpc/permission.go. A nil *Principal is `none`.
use mango_hub.Base.{
  ℕ, Bool, true, false, Option, none, some, List, [], ◌∷◌, Bytes, codes, eqb, ltb, if◌then◌else◌,
}

-- RoleGuest, RoleClient, RoleAdmin
abbrev pub Role : Type 0
Role = Bytes

abbrev pub role_guest : Role
role_guest = codes "guest"

abbrev pub role_client : Role
role_client = codes "client"

abbrev pub role_admin : Role
role_admin = codes "admin"

-- levelOf over the table roleLevel: an unknown role has the level of a guest.
unfoldable pub level_of : Role → ℕ
level_of role =
    if eqb role role_guest
    then 0
    else if eqb role role_client
    then 1
    else if eqb role role_admin
    then 2
    else 0

pub data PrincipalType : Type 0 where
  anonymous agent user api_key : PrincipalType

pub record Principal : Type 0 where
  pub type : PrincipalType
  pub user_uuid : Bytes
  pub client_uuid : Bytes
  pub is_api_key : Bool
  pub roles : List Role

unfoldable pub new_anonymous_principal : Principal
new_anonymous_principal = record {
  type = anonymous;
  user_uuid = [];
  client_uuid = [];
  is_api_key = false;
  roles = role_guest ∷ [];
}

unfoldable pub new_agent_principal : Bytes → Principal
new_agent_principal uuid = record {
  type = agent;
  user_uuid = [];
  client_uuid = uuid;
  is_api_key = false;
  roles = role_client ∷ [];
}

unfoldable pub new_user_principal : Bytes → Principal
new_user_principal uuid = record {
  type = user;
  user_uuid = uuid;
  client_uuid = [];
  is_api_key = false;
  roles = role_admin ∷ [];
}

unfoldable pub new_api_key_principal : Principal
new_api_key_principal = record {
  type = api_key;
  user_uuid = [];
  client_uuid = [];
  is_api_key = true;
  roles = role_admin ∷ [];
}

-- The loop of PrimaryRole; bestLevel is the level of bestRole throughout.
unfoldable pub primary_from : Role → List Role → Role
primary_from best [] = best
primary_from best (r ∷ rs) = primary_from (if ltb (level_of best) (level_of r) then r else best) rs

unfoldable pub primary_of : List Role → Role
unfolding primary_from
primary_of [] = role_guest
primary_of (r ∷ rs) = primary_from r rs

unfoldable pub primary_role : Option Principal → Role
unfolding primary_of
primary_role none = role_guest
primary_role (some p) = primary_of p.roles

unfoldable pub has_role_in : List Role → Role → Bool
has_role_in [] role = false
has_role_in (r ∷ rs) role = if eqb r role then true else has_role_in rs role

unfoldable pub has_role : Option Principal → Role → Bool
unfolding has_role_in
has_role none role = false
has_role (some p) role = has_role_in p.roles role

unfoldable pub principal_from_role : Role → Principal
unfolding new_anonymous_principal new_agent_principal new_user_principal
principal_from_role role =
    if eqb role role_client
    then new_agent_principal []
    else if eqb role role_admin
    then new_user_principal []
    else new_anonymous_principal
