-- ===== src/Permissions/Members.antt =====
-- src/modules/permissions/db/agent-group-members.ts: who is known in an agent group.
use multi_user_agent_platfor.Base.{
  Bool, true, ◌&&◌, ◌||◌, List, [], ◌∷◌, ◌++◌, String, ◌==◌, if◌then◌else◌, select, exists,
  delete_where, order_by, Result, ok, err, constraint,
}
use multi_user_agent_platfor.Types.{Central, AgentGroupMember}
use multi_user_agent_platfor.Permissions.Roles.{
  user_exists, agent_group_exists, null_or, is_owner, is_global_admin, is_admin_of_agent_group,
}

abbrev pub member_at : String → String → AgentGroupMember → Bool
member_at user_id agent_group_id m = m.user_id == user_id && m.agent_group_id == agent_group_id

-- INSERT OR IGNORE: a row with this key stays as it is. A missing reference still throws.
unfoldable pub add_member : AgentGroupMember → Central → Result Central
add_member row db =
    if exists (member_at row.user_id row.agent_group_id) db.agent_group_members
    then ok db
    else if user_exists db row.user_id
        && agent_group_exists db row.agent_group_id
        && null_or (user_exists db) row.added_by
    then ok (record db { agent_group_members = db.agent_group_members ++ row ∷ [] })
    else err (constraint "agent_group_members")

unfoldable pub remove_member : String → String → Central → Central
remove_member user_id agent_group_id db = record db {
  agent_group_members = delete_where (member_at user_id agent_group_id) db.agent_group_members;
}

unfoldable pub get_members : Central → String → List AgentGroupMember
get_members db agent_group_id =
    order_by (λ m. m.added_at)
      (select (λ m. m.agent_group_id == agent_group_id) db.agent_group_members)

-- A direct row, without the implicit membership of owners and admins.
unfoldable pub has_membership_row : Central → String → String → Bool
has_membership_row db user_id agent_group_id =
    exists (member_at user_id agent_group_id) db.agent_group_members

unfoldable pub is_member : Central → String → String → Bool
is_member db user_id agent_group_id =
    if is_owner db user_id
      || is_global_admin db user_id
      || is_admin_of_agent_group db user_id agent_group_id
    then true
    else has_membership_row db user_id agent_group_id
