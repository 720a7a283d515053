-- ===== src/Permissions/Approvers.antt =====
-- Approver picking of src/modules/approvals/primitive.ts.
use multi_user_agent_platfor.Base.{
  Bool, true, not, Option, none, some, List, [], ◌∷◌, ◌++◌, String, ◌==◌, if◌then◌else◌, truthy,
  coalesce, exists,
}
use multi_user_agent_platfor.Types.{Central, UserRole, MessagingGroup}
use multi_user_agent_platfor.Permissions.Roles.{
  get_admins_of_agent_group, get_global_admins, get_owners,
}

-- `add`: the set `seen` holds what the list holds.
unfoldable pub add : List String → String → List String
add approvers id = if exists (λ a. a == id) approvers then approvers else approvers ++ id ∷ []

unfoldable pub add_all : List String → List UserRole → List String
add_all approvers [] = approvers
add_all approvers (r ∷ rs) = add_all (add approvers r.user_id) rs

-- Admins of the group, then global admins, then owners.
unfoldable pub pick_approver : Central → Option String → List String
pick_approver db agent_group_id =
    let scoped =
      if truthy agent_group_id
      then add_all [] (get_admins_of_agent_group db (coalesce agent_group_id ""))
      else [] in
    add_all (add_all scoped (get_global_admins db)) (get_owners db)

pub record Reachable : Type 0 where
  pub user_id : String
  pub messaging_group : MessagingGroup

-- `ensureUserDm` (src/modules/permissions/user-dm.ts) is a parameter: whom the platform reaches by a
-- direct message. `before_colon` is
-- `userId.slice(0, userId.indexOf(':'))`, `none` where there is no colon.
module _ (ensure_user_dm : String → Option MessagingGroup)
    (before_colon : String → Option String) where
  abbrev pub channel_type_of : String → String
  channel_type_of user_id = coalesce (before_colon user_id) ""

  unfoldable pub first_reachable : (String → Bool) → List String → Option Reachable
  first_reachable eligible [] = none
  first_reachable eligible (u ∷ us) =
      let rest = first_reachable eligible us in
      if not (eligible u) then rest else (elim (ensure_user_dm u) [
        | none ↦ rest
        | some mg ↦ some (record { user_id = u; messaging_group = mg })
      ])

  -- First the approvers on the channel of the request, then any.
  unfoldable pub pick_approval_delivery : List String → String → Option Reachable
  pick_approval_delivery approvers origin_channel_type =
      let anyone = first_reachable (λ _. true) approvers in
      if origin_channel_type == ""
      then anyone
      else (elim (first_reachable (λ u. channel_type_of u == origin_channel_type) approvers) [
        | some r ↦ some r
        | none ↦ anyone
      ])
