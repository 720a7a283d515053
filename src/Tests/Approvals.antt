-- ===== src/Tests/Approvals.antt =====
-- The approval of an unknown sender at concrete inputs.
use multi_user_agent_platfor.Base.{
  ℕ, Bool, true, false, Option, none, some, length, List, [], ◌∷◌, ◌++◌, String, ◌≡◌, ◌≢◌, refl,
  sym, ap, ◌∙◌, arith, eq_iff, In, ◌⊎◌, inl, inr, Result, ok, find, exists,
}
use multi_user_agent_platfor.Types.{PendingSenderApproval}
use multi_user_agent_platfor.World.{World}
use multi_user_agent_platfor.Permissions.Roles.{has_admin_privilege, is_owner}
use multi_user_agent_platfor.Permissions.Members.{has_membership_row}
use multi_user_agent_platfor.Permissions.SenderApproval.{
  ApprovalRequest, ask_for_approval, has_in_flight_sender_approval, get_pending_sender_approval,
  ResponsePayload, handle_sender_approval_response, clicker_id, is_authorized, respond_to, settle,
}
use multi_user_agent_platfor.Permissions.Approval.{
  ask_for_approval-asks_privileged, response-needs_authority, approve-admits,
}
use multi_user_agent_platfor.Tests.Data.{suffix, chat_group, pending_card, central, world, event}

abbrev quiet_world : World
quiet_world = record world { central = record central { pending_sender_approvals = [] } }

abbrev request : ApprovalRequest
request = record {
  messaging_group_id = "mg-1";
  agent_group_id = "desk";
  sender_identity = "tg:stranger";
  sender_name = none;
  event = event;
}

abbrev new_card : PendingSenderApproval
new_card = record pending_card { id = "nsa-a"; original_message = "{}" }

ask_for_approval-asks_privileged_example :
    In new_card quiet_world.central.pending_sender_approvals
    ⊎ ((has_admin_privilege quiet_world.central "tg:owner" "desk" ≡ true)
        × (has_in_flight_sender_approval quiet_world.central "mg-1" "tg:stranger" ≡ false))
unfolding ask_for_approval multi_user_agent_platfor.Permissions.SenderApproval.ask
    multi_user_agent_platfor.Permissions.SenderApproval.approval_target
    multi_user_agent_platfor.Permissions.Approvers.pick_approval_delivery
    multi_user_agent_platfor.Permissions.Approvers.first_reachable
    multi_user_agent_platfor.Permissions.Approvers.pick_approver
    multi_user_agent_platfor.Permissions.Approvers.add_all
    multi_user_agent_platfor.Permissions.Roles.get_owners multi_user_agent_platfor.Base.order_by
    multi_user_agent_platfor.Base.select multi_user_agent_platfor.Permissions.Approvers.add
    multi_user_agent_platfor.Permissions.Roles.get_global_admins
    multi_user_agent_platfor.Permissions.Roles.get_admins_of_agent_group
    multi_user_agent_platfor.Permissions.SenderApproval.create_pending_sender_approval
    multi_user_agent_platfor.Permissions.Roles.agent_group_exists has_in_flight_sender_approval
    exists find
ask_for_approval-asks_privileged_example =
    ask_for_approval-asks_privileged (λ u. some chat_group) (λ u. some "tg") (λ e. "{}") suffix
      request quiet_world new_card (ground (arith, eq_iff "desk" "")) (inl refl)

abbrev click : String → ResponsePayload
click value = record {
  question_id = "card";
  value = value;
  user_id = some "owner";
  channel_type = "tg";
}

abbrev approved_world : World
approved_world = (handle_sender_approval_response 1000 (λ m w. w) (click "approve") world).1

abbrev card_count : World → ℕ
card_count w = length w.central.pending_sender_approvals

cards_left :
    card_count (handle_sender_approval_response 1000 (λ m w. w) (click "reject") world).1 ≡ 0
unfolding handle_sender_approval_response respond_to get_pending_sender_approval find is_authorized
    multi_user_agent_platfor.Base.namespaced settle
    multi_user_agent_platfor.Permissions.SenderApproval.delete_pending_sender_approval
    multi_user_agent_platfor.Base.delete_where
cards_left = refl

zero-≢-one : ◌≢◌ {A = ℕ} 0 1
zero-≢-one e = ground arith

moved : (handle_sender_approval_response 1000 (λ m w. w) (click "reject") world).1 ≢ world
moved e = zero-≢-one (sym cards_left ∙ ap card_count e)

response-needs_authority_example :
    (row : PendingSenderApproval) × (get_pending_sender_approval central "card" ≡ some row)
    × (is_authorized central (clicker_id (click "reject")) row ≡ true)
unfolding handle_sender_approval_response
response-needs_authority_example =
    response-needs_authority 1000 (λ m w. w) (click "reject") world moved

approve-admits_example :
    (v : World) × (approved_world ≡ v)
    × (has_membership_row v.central "tg:stranger" "desk" ≡ true)
    × (get_pending_sender_approval v.central "card" ≡ none)
unfolding handle_sender_approval_response get_pending_sender_approval find is_authorized
    multi_user_agent_platfor.Base.namespaced respond_to settle
    multi_user_agent_platfor.Permissions.Members.add_member exists
    multi_user_agent_platfor.Permissions.Roles.user_exists
    multi_user_agent_platfor.Permissions.Roles.agent_group_exists
approve-admits_example =
    approve-admits 1000 (λ m w. w) (click "approve") world approved_world pending_card true refl
      refl refl refl
