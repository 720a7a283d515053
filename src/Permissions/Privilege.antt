-- ===== src/Permissions/Privilege.antt =====
-- How grants and revocations change what a user may do.
use multi_user_agent_platfor.Base.{
  true, false, not, ◌&&◌, ◌||◌, Option, none, some, [], ◌∷◌, ◌++◌, String, ◌≡◌, ◌≢◌, ◌↔◌, arith,
  eq_iff, is_null, ok, All, All-append, All-delete_where,
}
use multi_user_agent_platfor.Types.{Central, UserRole, UserRoleKind, owner, role_is}
use multi_user_agent_platfor.Permissions.Roles.{
  get_user, has_admin_privilege, grant_role, revoke_role, role_at,
}
use multi_user_agent_platfor.Permissions.Members.{is_member, has_membership_row}
use multi_user_agent_platfor.Permissions.Access.{is_allowed, can_access_agent_group}

-- Every owner row is global.
abbrev pub OwnersGlobal : Central → Type 0
OwnersGlobal db =
    All (λ r. (role_is r.role owner && not (is_null r.agent_group_id)) ≡ false) db.user_roles

-- The answer of `canAccessAgentGroup` as the rule of the documentation: a known user, who has an
-- admin privilege over the group or a membership row in it.
pub can_access-allowed_iff :
    (db : Central) (u g : String)
    → (is_allowed (can_access_agent_group db u g) ≡ true) ↔ (
        (is_null (get_user db u) ≡ false)
        × ((has_admin_privilege db u g || has_membership_row db u g) ≡ true))
unfolding can_access_agent_group is_member has_admin_privilege
can_access-allowed_iff db u g = ground arith

-- Granting a role keeps every owner row global: an owner role for one agent group is refused.
pub grant_role-OwnersGlobal :
    (row : UserRole) (db db' : Central)
    → OwnersGlobal db
    → grant_role row db ≡ ok db'
    → OwnersGlobal db'
unfolding grant_role
grant_role-OwnersGlobal row db db' v h =
    let global : (role_is row.role owner && not (is_null row.agent_group_id)) ≡ false =
      ground arith in
    let stored : db'.user_roles ≡ db.user_roles ++ row ∷ [] = ground arith in
    rw stored (
      All-append (λ r. (role_is r.role owner && not (is_null r.agent_group_id)) ≡ false)
        db.user_roles (row ∷ []) v (global, tt))

pub revoke_role-OwnersGlobal :
    (u : String) (role : UserRoleKind) (g : Option String) (db : Central)
    → OwnersGlobal db
    → OwnersGlobal (revoke_role u role g db)
unfolding revoke_role
revoke_role-OwnersGlobal u role g db v =
    All-delete_where (λ r. (role_is r.role owner && not (is_null r.agent_group_id)) ≡ false) _
      db.user_roles v

-- What the grants of another user, or of another role, have to do with a lookup: nothing.
pub role_at-other :
    (u v : String) (role role' : UserRoleKind) (g h : Option String) (r : UserRole)
    → v ≢ u
    → role_at v role' h r ≡ true
    → role_at u role g r ≡ false
role_at-other u v role role' none none r n e =
    ground (arith, eq_iff r.user_id u, eq_iff r.user_id v)
role_at-other u v role role' none (some _) r n e =
    ground (arith, eq_iff r.user_id u, eq_iff r.user_id v)
role_at-other u v role role' (some _) none r n e =
    ground (arith, eq_iff r.user_id u, eq_iff r.user_id v)
role_at-other u v role role' (some _) (some _) r n e =
    ground (arith, eq_iff r.user_id u, eq_iff r.user_id v)
