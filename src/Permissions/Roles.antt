-- ===== src/Permissions/Roles.antt =====
-- src/modules/permissions/db/user-roles.ts: role grants and the lookups on them.
-- `foreign_keys = ON` (src/db/connection.ts), so a grant names rows that exist.
use multi_user_agent_platfor.Base.{
  Bool, true, false, not, ◌&&◌, ◌||◌, Option, none, some, List, [], ◌∷◌, ◌++◌, String, ◌==◌,
  if◌then◌else◌, is_null, column_is, find, select, exists, delete_where, order_by, Result, ok, err,
  thrown, constraint,
}
use multi_user_agent_platfor.Types.{Central, User, UserRole, UserRoleKind, owner, admin, role_is}

unfoldable pub get_user : Central → String → Option User
get_user db user_id = find (λ u. u.id == user_id) db.users

unfoldable pub user_exists : Central → String → Bool
user_exists db user_id = exists (λ u. u.id == user_id) db.users

unfoldable pub agent_group_exists : Central → String → Bool
agent_group_exists db id = exists (λ g. g.id == id) db.agent_groups

-- A nullable column that references a table.
abbrev pub null_or : (String → Bool) → Option String → Bool
null_or test none = true
null_or test (some s) = test s

-- Two rows with one PRIMARY KEY (user_id, role, agent_group_id). NULLs are distinct in it.
abbrev pub same_role_key : UserRole → UserRole → Bool
same_role_key a b =
    a.user_id == b.user_id
    && role_is a.role b.role
    && (elim a.agent_group_id [ none ↦ false | some g ↦ column_is b.agent_group_id g ])

abbrev pub role_references : Central → UserRole → Bool
role_references db row =
    user_exists db row.user_id
    && null_or (agent_group_exists db) row.agent_group_id
    && null_or (user_exists db) row.granted_by

abbrev pub insert_role : UserRole → Central → Result Central
insert_role row db =
    if exists (same_role_key row) db.user_roles || not (role_references db row)
    then err (constraint "user_roles")
    else ok (record db { user_roles = db.user_roles ++ row ∷ [] })

unfoldable pub grant_role : UserRole → Central → Result Central
grant_role row db =
    if role_is row.role owner && not (is_null row.agent_group_id)
    then err (thrown "owner role must be global (agent_group_id = null)")
    else insert_role row db

-- The rows of `user` with `role`, global or scoped as `group` says.
abbrev pub role_at : String → UserRoleKind → Option String → UserRole → Bool
role_at user_id role none r =
    r.user_id == user_id && role_is r.role role && is_null r.agent_group_id
role_at user_id role (some g) r =
    r.user_id == user_id && role_is r.role role && column_is r.agent_group_id g

unfoldable pub revoke_role : String → UserRoleKind → Option String → Central → Central
revoke_role user_id role agent_group_id db = record db {
  user_roles = delete_where (role_at user_id role agent_group_id) db.user_roles;
}

unfoldable pub get_user_roles : Central → String → List UserRole
get_user_roles db user_id = select (λ r. r.user_id == user_id) db.user_roles

unfoldable pub is_owner : Central → String → Bool
is_owner db user_id = exists (role_at user_id owner none) db.user_roles

unfoldable pub is_global_admin : Central → String → Bool
is_global_admin db user_id = exists (role_at user_id admin none) db.user_roles

unfoldable pub is_admin_of_agent_group : Central → String → String → Bool
is_admin_of_agent_group db user_id agent_group_id =
    exists (role_at user_id admin (some agent_group_id)) db.user_roles

-- Any admin privilege over this agent group: global admin or scoped admin.
unfoldable pub has_admin_privilege : Central → String → String → Bool
has_admin_privilege db user_id agent_group_id =
    is_owner db user_id
    || is_global_admin db user_id
    || is_admin_of_agent_group db user_id agent_group_id

unfoldable pub get_owners : Central → List UserRole
get_owners db =
    order_by (λ r. r.granted_at)
      (select (λ r. role_is r.role owner && is_null r.agent_group_id) db.user_roles)

unfoldable pub has_any_owner : Central → Bool
has_any_owner db = exists (λ r. role_is r.role owner && is_null r.agent_group_id) db.user_roles

unfoldable pub get_global_admins : Central → List UserRole
get_global_admins db =
    order_by (λ r. r.granted_at)
      (select (λ r. role_is r.role admin && is_null r.agent_group_id) db.user_roles)

unfoldable pub get_admins_of_agent_group : Central → String → List UserRole
get_admins_of_agent_group db agent_group_id =
    order_by (λ r. r.granted_at)
      (select (λ r. role_is r.role admin && column_is r.agent_group_id agent_group_id)
        db.user_roles)
