-- ===== src/Permissions/SenderApproval.antt =====
-- The approval of unknown senders: src/modules/permissions/sender-approval.ts, its response handler in
-- src/modules/permissions/index.ts and src/modules/permissions/db/pending-sender-approvals.ts.
-- The card's texts and its delivery are not modelled: they change no state of the host.
use Prim.Native.String
use multi_user_agent_platfor.Base.{
  ℕ, ◌+◌, Bool, true, false, not, ◌&&◌, ◌||◌, Option, none, some, [], ◌∷◌, ◌++◌, String, ◌==◌,
  if◌then◌else◌, truthy, coalesce, namespaced, find, exists, delete_where, Result, ok, err,
  constraint,
}
use multi_user_agent_platfor.Types.{Central, PendingSenderApproval, InboundEvent, MessagingGroup}
use multi_user_agent_platfor.World.{World, M, pure, on_central, ◌>>◌}
use multi_user_agent_platfor.Permissions.Roles.{agent_group_exists, has_admin_privilege}
use multi_user_agent_platfor.Permissions.Members.{add_member}
use multi_user_agent_platfor.Permissions.Approvers.{
  Reachable, pick_approver, pick_approval_delivery,
}

abbrev pub in_flight : String → String → PendingSenderApproval → Bool
in_flight mg_id sender r = r.messaging_group_id == mg_id && r.sender_identity == sender

-- The primary key, UNIQUE(messaging_group_id, sender_identity) and the references refuse a row.
unfoldable pub create_pending_sender_approval : PendingSenderApproval → Central → Result Central
create_pending_sender_approval row db =
    if exists (λ r. r.id == row.id || in_flight row.messaging_group_id row.sender_identity r)
        db.pending_sender_approvals
      || not (exists (λ m. m.id == row.messaging_group_id) db.messaging_groups)
      || not (agent_group_exists db row.agent_group_id)
    then err (constraint "pending_sender_approvals")
    else ok (record db { pending_sender_approvals = db.pending_sender_approvals ++ row ∷ [] })

unfoldable pub get_pending_sender_approval : Central → String → Option PendingSenderApproval
get_pending_sender_approval db id = find (λ r. r.id == id) db.pending_sender_approvals

unfoldable pub has_in_flight_sender_approval : Central → String → String → Bool
has_in_flight_sender_approval db mg_id sender =
    exists (in_flight mg_id sender) db.pending_sender_approvals

unfoldable pub delete_pending_sender_approval : String → Central → Central
delete_pending_sender_approval id db = record db {
  pending_sender_approvals = delete_where (λ r. r.id == id) db.pending_sender_approvals;
}

-- What `requestSenderApproval` is given.
pub record ApprovalRequest : Type 0 where
  pub messaging_group_id : String
  pub agent_group_id : String
  pub sender_identity : String
  pub sender_name : Option String
  pub event : InboundEvent

abbrev pub channel_type_of_chat : Option MessagingGroup → String
channel_type_of_chat none = ""
channel_type_of_chat (some mg) = mg.channel_type

-- `stringify_event` is `JSON.stringify` at an event, `gen` draws the random part of an id.
module _ (ensure_user_dm : String → Option MessagingGroup) (before_colon : String → Option String)
    (stringify_event : InboundEvent → String) (gen : ℕ → String) where
  abbrev pub pending_row : ApprovalRequest → String → String → PendingSenderApproval
  pending_row q id approver = record {
    id = id;
    messaging_group_id = q.messaging_group_id;
    agent_group_id = q.agent_group_id;
    sender_identity = q.sender_identity;
    sender_name = q.sender_name;
    original_message = stringify_event q.event;
    approver_user_id = approver;
  }

  -- The approver who is asked; `none` where nobody is or a card is pending already.
  unfoldable pub approval_target : ApprovalRequest → Central → Option Reachable
  approval_target q db =
      if has_in_flight_sender_approval db q.messaging_group_id q.sender_identity
      then none
      else pick_approval_delivery ensure_user_dm before_colon
          (pick_approver db (some q.agent_group_id))
          (channel_type_of_chat (find (λ m. m.id == q.messaging_group_id) db.messaging_groups))

  unfoldable pub ask : Option Reachable → ApprovalRequest → M (Unit {0})
  ask none q w = pure tt w
  ask (some target) q w =
      on_central
        (create_pending_sender_approval
          (pending_row q (String.◌++◌ "nsa-" (gen w.draws)) target.user_id))
        (record w { draws = w.draws + 1 })

  unfoldable pub ask_for_approval : ApprovalRequest → M (Unit {0})
  ask_for_approval q w = ask (approval_target q w.central) q w

-- The click on a card.
pub record ResponsePayload : Type 0 where
  pub question_id : String
  pub value : String
  pub user_id : Option String
  pub channel_type : String

abbrev pub clicker_id : ResponsePayload → Option String
clicker_id p =
    if truthy p.user_id then some (namespaced p.channel_type (coalesce p.user_id "")) else none

unfoldable pub is_authorized : Central → Option String → PendingSenderApproval → Bool
is_authorized db none row = false
is_authorized db (some clicker) row =
    clicker == row.approver_user_id || has_admin_privilege db clicker row.agent_group_id

-- `replay` parses the stored event and routes it again; what it throws is caught and logged.
module _ (now : ℕ) (replay : String → World → World) where
  unfoldable pub settle : PendingSenderApproval → Option String → Bool → M Bool
  settle row clicker false = do
    on_central (λ db. ok (delete_pending_sender_approval row.id db))
    pure true
  settle row clicker true = do
    on_central (
        add_member (record {
          user_id = row.sender_identity;
          agent_group_id = row.agent_group_id;
          added_by = clicker;
          added_at = now;
        }))
    on_central (λ db. ok (delete_pending_sender_approval row.id db))
    (λ w. pure true (replay row.original_message w))

  unfoldable pub respond_to : Option PendingSenderApproval → ResponsePayload → M Bool
  respond_to none payload w = pure false w
  respond_to (some row) payload w =
      if not (is_authorized w.central (clicker_id payload) row)
      then pure true w
      else settle row (clicker_id payload) (payload.value == "approve") w

  -- Whether the response is claimed.
  unfoldable pub handle_sender_approval_response : ResponsePayload → M Bool
  handle_sender_approval_response payload w =
      respond_to (get_pending_sender_approval w.central payload.question_id) payload w
