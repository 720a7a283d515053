-- ===== src/ChannelApproval/Request.antt =====
-- `requestChannelApproval` of src/modules/permissions/channel-approval.ts with its options. What the card
-- says beside them, and its delivery, changes no state of the host and is not modelled.
use Prim.Native.String
use Prim.Native.Nat.{Ordering}
use multi_user_agent_platfor.Base.{
  ℕ, Bool, true, false, not, ◌||◌, Option, none, some, List, [], ◌∷◌, ◌++◌, map, String,
  if◌then◌else◌, truthy, coalesce, ok, str,
}
use multi_user_agent_platfor.Types.{
  Central, AgentGroup, MessagingGroup, NormalizedOption, InboundEvent, PendingChannelApproval,
}
use multi_user_agent_platfor.World.{M, pure, on_central, ◌>>◌}
use multi_user_agent_platfor.Permissions.Approvers.{
  Reachable, pick_approver, pick_approval_delivery,
}
use multi_user_agent_platfor.Permissions.SenderApproval.{channel_type_of_chat}
use multi_user_agent_platfor.Router.Inbound.{get_messaging_group}
use multi_user_agent_platfor.Wiring.Chats.{update_messaging_group}
use multi_user_agent_platfor.ChannelApproval.Rows.{
  create_pending_channel_approval, has_in_flight_channel_approval,
}

unfoldable pub insert_by_name : AgentGroup → List AgentGroup → List AgentGroup
insert_by_name g [] = g ∷ []
insert_by_name g (h ∷ hs) =
    let rest = insert_by_name g hs in
    elim (String.compare g.name h.name) [ Ordering.gt ↦ h ∷ rest | _ ↦ g ∷ h ∷ hs ]

unfoldable pub order_by_name : List AgentGroup → List AgentGroup
order_by_name [] = []
order_by_name (g ∷ gs) = insert_by_name g (order_by_name gs)

-- ORDER BY name
unfoldable pub get_all_agent_groups : Central → List AgentGroup
get_all_agent_groups db = order_by_name db.agent_groups

-- An option as `normalizeOptions` answers it.
abbrev pub option : String → String → String → NormalizedOption
option label selected_label value = record {
  label = some (str label);
  selected_label = some (str selected_label);
  value = some (str value);
}

abbrev pub connect_option : String → AgentGroup → NormalizedOption
connect_option label group =
    option label (String.◌++◌ "✅ Connected to " group.name) (String.◌++◌ "connect:" group.id)

abbrev pub first_option : List AgentGroup → NormalizedOption
first_option (group ∷ []) = connect_option (String.◌++◌ "Connect to " group.name) group
first_option _ = option "Choose existing agent" "📋 Choosing…" "choose_existing"

unfoldable pub build_approval_options : List AgentGroup → List NormalizedOption
build_approval_options groups =
    first_option groups
    ∷ option "Connect new agent" "🆕 Connecting new agent…" "new_agent"
    ∷ option "Reject" "🙅 Rejected" "reject"
    ∷ []

unfoldable pub build_agent_selection_options : List AgentGroup → List NormalizedOption
build_agent_selection_options groups =
    map (λ g. connect_option g.name g) groups ++ option "Cancel" "🙅 Cancelled" "reject" ∷ []

-- `channel_name` is the adapter's `resolveChannelName` at a channel and a platform id: `none` where
-- there is none, where it throws and where it answers nothing. `stringify_event` is
-- `JSON.stringify` at an event, and `says_group` its `isGroup`, `none` where that is undefined.
module _ (ensure_user_dm : String → Option MessagingGroup) (before_colon : String → Option String)
    (channel_name : String → String → Option String) (stringify_event : InboundEvent → String)
    (says_group : InboundEvent → Option Bool) (now : ℕ) where
  unfoldable pub resolve_name : Option MessagingGroup → M (Unit {0})
  resolve_name none w = pure tt w
  resolve_name (some mg) w =
      let name = channel_name mg.channel_type mg.platform_id in
      if truthy mg.name || not (truthy name)
      then pure tt w
      else on_central
          (λ db. ok (
            update_messaging_group mg.id
              (record { name = some name; is_group = none; unknown_sender_policy = none }) db))
          w

  abbrev pub card_title : Bool → String
  card_title true = "📣 Bot mentioned in new channel"
  card_title false = "💬 New direct message"

  abbrev pub is_group_chat : Option MessagingGroup → Bool
  is_group_chat none = false
  is_group_chat (some mg) = mg.is_group

  abbrev pub request_row :
      String
      → Option MessagingGroup
      → AgentGroup
      → List AgentGroup
      → InboundEvent
      → String
      → PendingChannelApproval
  request_row messaging_group_id mg reference groups event approver = record {
    messaging_group_id = messaging_group_id;
    agent_group_id = reference.id;
    original_message = stringify_event event;
    approver_user_id = approver;
    created_at = now;
    title = card_title (coalesce (says_group event) (is_group_chat mg));
    options = build_approval_options groups;
  }

  unfoldable pub put_row :
      Option Reachable
      → String
      → Option MessagingGroup
      → AgentGroup
      → List AgentGroup
      → InboundEvent
      → M (Unit {0})
  put_row none messaging_group_id mg reference groups event = pure tt
  put_row (some target) messaging_group_id mg reference groups event = on_central (
      create_pending_channel_approval
        (request_row messaging_group_id mg reference groups event target.user_id))

  unfoldable pub ask_one_of :
      List String → String → AgentGroup → List AgentGroup → InboundEvent → M (Unit {0})
  ask_one_of [] messaging_group_id reference groups event w = pure tt w
  ask_one_of (a ∷ others) messaging_group_id reference groups event w =
      let mg = get_messaging_group w.central messaging_group_id in
      (resolve_name mg
          >> put_row
              (pick_approval_delivery ensure_user_dm before_colon (a ∷ others)
                (channel_type_of_chat mg))
              messaging_group_id mg reference groups event)
        w

  -- The first agent group by name stands for the request.
  unfoldable pub request_for :
      List AgentGroup → List AgentGroup → String → InboundEvent → M (Unit {0})
  request_for [] groups messaging_group_id event w = pure tt w
  request_for (reference ∷ others) groups messaging_group_id event w =
      ask_one_of (pick_approver w.central (some reference.id)) messaging_group_id reference groups
        event w

  unfoldable pub ask_for_channel : String → InboundEvent → M (Unit {0})
  ask_for_channel messaging_group_id event w =
      if has_in_flight_channel_approval w.central messaging_group_id
      then pure tt w
      else request_for (get_all_agent_groups w.central) (get_all_agent_groups w.central)
          messaging_group_id event w
