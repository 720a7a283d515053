-- ===== src/Tests/Access.antt =====
-- Access, approvals and commands at concrete inputs.
use multi_user_agent_platfor.Base.{
  true, false, some, ◌≡◌, ◌↔◌, refl, arith, eq_iff, if◌then◌else◌, In, is_null, ◌||◌, lookup_field,
}
use multi_user_agent_platfor.Permissions.Roles.{get_user, has_admin_privilege}
use multi_user_agent_platfor.Permissions.Members.{has_membership_row}
use multi_user_agent_platfor.Permissions.Access.{is_allowed, can_access_agent_group}
use multi_user_agent_platfor.Permissions.Privilege.{can_access-allowed_iff}
use multi_user_agent_platfor.Permissions.Revocation.{cut_off, cut_off-denies}
use multi_user_agent_platfor.Permissions.CommandGate.{
  is_admin, gate_command, gate_text, pass, deny, one_of, admin_commands,
}
use multi_user_agent_platfor.Permissions.AdminCommands.{
  is_admin-eq-has_admin_privilege, gate_command-admin_command,
}
use multi_user_agent_platfor.Permissions.Approvers.{pick_approver}
use multi_user_agent_platfor.Permissions.Picking.{pick_approver-eq-privileged}
use multi_user_agent_platfor.Tests.Data.{engine, central}

can_access-allowed_iff_example :
    (is_allowed (can_access_agent_group central "tg:owner" "desk") ≡ true) ↔ (
      (is_null (get_user central "tg:owner") ≡ false)
      × ((has_admin_privilege central "tg:owner" "desk"
            || has_membership_row central "tg:owner" "desk")
          ≡ true))
can_access-allowed_iff_example = can_access-allowed_iff central "tg:owner" "desk"

cut_off-denies_example :
    (is_allowed (can_access_agent_group (cut_off "tg:owner" "desk" central) "tg:owner" "desk")
      ≡ false)
    × (can_access_agent_group (cut_off "tg:owner" "desk" central) "tg:stranger" "desk"
        ≡ can_access_agent_group central "tg:stranger" "desk")
cut_off-denies_example =
    cut_off-denies central "tg:owner" "desk" "tg:stranger" "desk"
      (ground (arith, eq_iff "tg:stranger" "tg:owner"))

is_admin-eq-has_admin_privilege_example :
    is_admin true central (some "tg:owner") "desk" ≡ has_admin_privilege central "tg:owner" "desk"
is_admin-eq-has_admin_privilege_example =
    is_admin-eq-has_admin_privilege central "tg:owner" "desk" (refl, tt)
      (ground (arith, eq_iff "tg:owner" ""))

gate_command-admin_command_example :
    gate_command engine true central "/clear" (some "tg:owner") "desk" ≡ (
      if has_admin_privilege central "tg:owner" "desk"
      then pass
      else deny (engine.command_word (gate_text engine "/clear")))
unfolding gate_text one_of admin_commands lookup_field
gate_command-admin_command_example =
    gate_command-admin_command engine central "/clear" "desk" "tg:owner" (refl, tt)
      (ground (arith, eq_iff "tg:owner" "")) refl refl

pick_approver-eq-privileged_example :
    In "tg:owner" (pick_approver central (some "desk"))
    ↔ (has_admin_privilege central "tg:owner" "desk" ≡ true)
pick_approver-eq-privileged_example =
    pick_approver-eq-privileged central "desk" "tg:owner" (ground (arith, eq_iff "desk" ""))
