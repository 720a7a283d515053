-- ===== src/Permissions/Access.antt =====
-- src/modules/permissions/access.ts: may this user interact with this agent group?
use multi_user_agent_platfor.Base.{Bool, true, false, String, if◌then◌else◌, is_null}
use multi_user_agent_platfor.Types.{Central}
use multi_user_agent_platfor.Permissions.Roles.{
  get_user, is_owner, is_global_admin, is_admin_of_agent_group,
}
use multi_user_agent_platfor.Permissions.Members.{is_member}

pub data AllowReason : Type 0 where
  owner global_admin admin_of_group member : AllowReason

pub data DenyReason : Type 0 where
  unknown_user not_member : DenyReason

pub data AccessDecision : Type 0 where
  allowed : AllowReason → AccessDecision
  denied : DenyReason → AccessDecision

abbrev pub is_allowed : AccessDecision → Bool
is_allowed (allowed _) = true
is_allowed (denied _) = false

unfoldable pub can_access_agent_group : Central → String → String → AccessDecision
can_access_agent_group db user_id agent_group_id =
    if is_null (get_user db user_id)
    then denied unknown_user
    else if is_owner db user_id
    then allowed owner
    else if is_global_admin db user_id
    then allowed global_admin
    else if is_admin_of_agent_group db user_id agent_group_id
    then allowed admin_of_group
    else if is_member db user_id agent_group_id
    then allowed member
    else denied not_member
