-- ===== src/ChannelApproval/Response.antt =====
-- `handleChannelApprovalResponse` and the interceptor of names of src/modules/permissions/index.ts.
-- Cards and prompts are sent by the adapter; whether that works is a parameter.
use multi_user_agent_platfor.Base.{
  Bool, true, false, not, ◌||◌, Option, none, some, ◌∷◌, String, ◌==◌, if◌then◌else◌, truthy,
  coalesce, find, delete_where, ok, err, Json, property, as_string,
}
use multi_user_agent_platfor.Host.{Host}
use multi_user_agent_platfor.Types.{
  Central, MessagingGroup, MessagingGroupAgent, EngageMode, InboundEvent, PendingChannelApproval,
  AgentGroup, pattern, mention_sticky, known, accumulate, shared,
}
use multi_user_agent_platfor.World.{World, M, pure, on_central, ◌>>=◌, ◌>>◌, AwaitingName}
use multi_user_agent_platfor.Permissions.Roles.{has_admin_privilege}
use multi_user_agent_platfor.Permissions.Members.{add_member}
use multi_user_agent_platfor.Permissions.Gates.{extract_and_upsert_user}
use multi_user_agent_platfor.Permissions.SenderApproval.{ResponsePayload, clicker_id}
use multi_user_agent_platfor.Router.Fanout.{get_agent_group}
use multi_user_agent_platfor.Router.Deliver.{fresh_id}
use multi_user_agent_platfor.Wiring.Chats.{set_messaging_group_denied_at}
use multi_user_agent_platfor.Wiring.Wire.{create_messaging_group_agent, create_new_agent_group}
use multi_user_agent_platfor.ChannelApproval.Rows.{
  get_pending_channel_approval, update_pending_channel_approval_card,
  delete_pending_channel_approval,
}
use multi_user_agent_platfor.ChannelApproval.Request.{
  get_all_agent_groups, build_agent_selection_options,
}

-- What is outside the modelled code where a card is answered.
pub record Desk : Type 0 where
  pub host : Host
  pub ensure_user_dm : String → Option MessagingGroup
  -- whether there is a delivery adapter, and whether it takes the prompt for a name
  pub adapter_ready : Bool
  pub prompt_sent : Bool
  -- `JSON.parse` at a stored event; `none` where it throws
  pub parse_event : String → Option InboundEvent
  -- `text.slice(prefix.length)`; `none` where the text does not start with the prefix
  pub after_prefix : (prefix text : String) → Option String
  -- `routeInbound`; what it throws is logged
  pub replay : InboundEvent → World → World

unfoldable pub may_decide : Central → Option String → PendingChannelApproval → Bool
may_decide db none row = false
may_decide db (some clicker) row =
    clicker == row.approver_user_id || has_admin_privilege db clicker row.agent_group_id

module _ (desk : Desk) where
  abbrev pub drop_row : PendingChannelApproval → M Bool
  drop_row row = do
    on_central (λ db. ok (delete_pending_channel_approval row.messaging_group_id db))
    pure true

  -- A chat with threads counts as a group.
  abbrev pub engage_mode_for : Option String → EngageMode
  engage_mode_for none = pattern
  engage_mode_for (some thread) = mention_sticky

  abbrev pub engage_pattern_for : Option String → Option String
  engage_pattern_for none = some "."
  engage_pattern_for (some thread) = none

  abbrev pub new_wiring :
      PendingChannelApproval → String → InboundEvent → String → MessagingGroupAgent
  new_wiring row target event id = record {
    id = id;
    messaging_group_id = row.messaging_group_id;
    agent_group_id = target;
    engage_mode = engage_mode_for event.thread_id;
    engage_pattern = engage_pattern_for event.thread_id;
    sender_scope = known;
    ignored_message_policy = accumulate;
    session_mode = shared;
    priority = 0;
  }

  abbrev pub admit_sender : Option String → String → Option String → M (Unit {0})
  admit_sender sender target approver w =
      if truthy sender
      then on_central
          (add_member (record {
            user_id = coalesce sender "";
            agent_group_id = target;
            added_by = approver;
            added_at = desk.host.now;
          }))
          w
      else pure tt w

  -- The wiring, the sender's membership, the end of the card, and the message once more.
  unfoldable pub wire_and_replay :
      PendingChannelApproval → String → Option String → InboundEvent → M Bool
  wire_and_replay row target approver event = do
    id ← fresh_id desk.host "mga-"
    create_messaging_group_agent desk.host.engine (new_wiring row target event id)
    sender ← extract_and_upsert_user desk.host.engine desk.host.now event
    admit_sender sender target approver
    on_central (λ db. ok (delete_pending_channel_approval row.messaging_group_id db))
    (λ w. pure true (desk.replay event w))

  unfoldable pub connect_event :
      Option InboundEvent → PendingChannelApproval → String → Option String → M Bool
  connect_event none row target approver = drop_row row
  connect_event (some event) row target approver = wire_and_replay row target approver event

  unfoldable pub connect_to :
      Option AgentGroup → PendingChannelApproval → String → Option String → M Bool
  connect_to none row target approver = drop_row row
  connect_to (some group) row target approver =
      connect_event (desk.parse_event row.original_message) row target approver

  unfoldable pub connect : Option String → PendingChannelApproval → Option String → M Bool
  connect none row approver w = pure true w
  connect (some target) row approver w =
      connect_to (get_agent_group w.central target) row target approver w

  unfoldable pub reject_channel : PendingChannelApproval → M Bool
  reject_channel row = do
    on_central
        (λ db. ok (set_messaging_group_denied_at row.messaging_group_id (some desk.host.now) db))
    drop_row row

  unfoldable pub choose_existing : Option MessagingGroup → PendingChannelApproval → M Bool
  choose_existing none row w = pure true w
  choose_existing (some dm) row w =
      if desk.adapter_ready
      then (do
        on_central (λ db. ok (
            update_pending_channel_approval_card row.messaging_group_id "📋 Choose an agent"
              (build_agent_selection_options (get_all_agent_groups db)) db))
        pure true)
          w
      else pure true w

  abbrev pub stop_awaiting : String → World → World
  stop_awaiting user_id w = record w {
    awaiting_names = delete_where (λ a. a.user_id == user_id) w.awaiting_names;
  }

  abbrev pub awaiting : PendingChannelApproval → MessagingGroup → AwaitingName
  awaiting row dm = record {
    user_id = row.approver_user_id;
    channel_mg_id = row.messaging_group_id;
    dm_channel_type = dm.channel_type;
    dm_platform_id = dm.platform_id;
  }

  -- `Map.set` replaces the approver's earlier entry; a prompt that fails takes the entry back.
  unfoldable pub ask_name : Option MessagingGroup → PendingChannelApproval → M Bool
  ask_name none row w = pure true w
  ask_name (some dm) row w =
      let rest = stop_awaiting row.approver_user_id w in
      if not desk.adapter_ready
      then pure true w
      else if desk.prompt_sent
      then pure true (record rest { awaiting_names = awaiting row dm ∷ rest.awaiting_names })
      else pure true rest

  unfoldable pub by_value : PendingChannelApproval → ResponsePayload → M Bool
  by_value row payload =
      if payload.value == "reject"
      then reject_channel row
      else if payload.value == "choose_existing"
      then choose_existing (desk.ensure_user_dm row.approver_user_id) row
      else if payload.value == "new_agent"
      then ask_name (desk.ensure_user_dm row.approver_user_id) row
      else connect (desk.after_prefix "connect:" payload.value) row (clicker_id payload)

  unfoldable pub answer_card : Option PendingChannelApproval → ResponsePayload → M Bool
  answer_card none payload w = pure false w
  answer_card (some row) payload w =
      if may_decide w.central (clicker_id payload) row then by_value row payload w else pure true w

  -- Whether the response is claimed.
  unfoldable pub handle_channel_approval_response : ResponsePayload → M Bool
  handle_channel_approval_response payload w =
      answer_card (get_pending_channel_approval w.central payload.question_id) payload w

  -- The reply with the name. A text that is missing or blank ends the waiting.
  abbrev pub reply_text : Option Json → String
  reply_text none = ""
  reply_text (some content) = elim (property "text" content) [
    | err e ↦ ""
    | ok value ↦ elim (as_string value) [ none ↦ "" | some text ↦ desk.host.engine.trim text ]
  ]

  unfoldable pub create_and_connect : Option PendingChannelApproval → String → String → M Bool
  create_and_connect none name approver = pure true
  create_and_connect (some row) name approver = do
    group ← create_new_agent_group desk.host name
    connect_event (desk.parse_event row.original_message) row group.id (some approver)

  unfoldable pub take_name : Option AwaitingName → String → InboundEvent → M Bool
  take_name none user_id event w = pure false w
  take_name (some entry) user_id event w =
      let text = reply_text (desk.host.engine.json_parse event.message.content) in
      if not (event.channel_type == entry.dm_channel_type)
        || not (event.platform_id == entry.dm_platform_id)
      then pure false w
      else if text == ""
      then pure true (stop_awaiting user_id w)
      else create_and_connect (get_pending_channel_approval w.central entry.channel_mg_id) text
          user_id (stop_awaiting user_id w)

  abbrev pub name_from : Option String → InboundEvent → M Bool
  name_from user_id event w =
      if truthy user_id
      then take_name (find (λ a. a.user_id == coalesce user_id "") w.awaiting_names)
          (coalesce user_id "") event w
      else pure false w

  -- True where the message is consumed.
  unfoldable pub intercept_name : InboundEvent → M Bool
  intercept_name event = do
    user_id ← extract_and_upsert_user desk.host.engine desk.host.now event
    name_from user_id event
