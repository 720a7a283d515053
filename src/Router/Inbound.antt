-- ===== src/Router/Inbound.antt =====
-- `routeInbound` of src/router.ts: from the adapter's event to the fan-out.
use multi_user_agent_platfor.Base
use multi_user_agent_platfor.Base.{
  ℕ, ◌+◌, Bool, true, false, not, ◌&&◌, ◌||◌, Option, none, some, List, [], ◌∷◌, ◌++◌, String, ◌==◌,
  if◌then◌else◌, truthy, coalesce, is_null, num_eq, length, find, select, exists, order_by_desc,
  Result, ok, err, constraint, Json, str, property, bind_text,
}
use multi_user_agent_platfor.Host.{Host}
use multi_user_agent_platfor.Types.{
  Central, MessagingGroup, MessagingGroupAgent, InboundEvent, request_approval,
}
use multi_user_agent_platfor.World.{
  M, pure, lift, emit, on_central, ◌>>=◌, ◌>>◌, request_channel_approval,
}
use multi_user_agent_platfor.DroppedMessages.{record_dropped_message}
use multi_user_agent_platfor.Permissions.Gates.{safe_parse_content, extract_and_upsert_user}
use multi_user_agent_platfor.Router.Deliver.{fresh_id}
use multi_user_agent_platfor.Router.Fanout.{Tally, fan_out}

-- src/db/messaging-groups.ts
unfoldable pub get_messaging_group : Central → String → Option MessagingGroup
get_messaging_group db id = find (λ m. m.id == id) db.messaging_groups

unfoldable pub get_messaging_group_by_platform : Central → String → String → Option MessagingGroup
get_messaging_group_by_platform db channel_type platform_id =
    find (λ m. m.channel_type == channel_type && m.platform_id == platform_id) db.messaging_groups

unfoldable pub get_messaging_group_agents : Central → String → List MessagingGroupAgent
get_messaging_group_agents db messaging_group_id =
    order_by_desc (λ a. a.priority)
      (select (λ a. a.messaging_group_id == messaging_group_id) db.messaging_group_agents)

-- The count of the LEFT JOIN in `getMessagingGroupWithAgentCount`.
unfoldable pub agent_count : Central → MessagingGroup → ℕ
agent_count db mg = length (select (λ a. a.messaging_group_id == mg.id) db.messaging_group_agents)

unfoldable pub create_messaging_group : MessagingGroup → Central → Result Central
create_messaging_group mg db =
    if exists
      (λ m. m.id == mg.id || (m.channel_type == mg.channel_type && m.platform_id == mg.platform_id))
      db.messaging_groups
    then err (constraint "messaging_groups")
    else ok (record db {
      messaging_groups = db.messaging_groups ++ record mg { denied_at = none } ∷ [];
    })

module _ (host : Host) where
  -- A non-threaded adapter collapses threads to the channel.
  unfoldable pub apply_thread_policy : InboundEvent → InboundEvent
  apply_thread_policy event = elim (host.adapter event.channel_type) [
    | none ↦ event
    | some a ↦ if a.supports_threads then event else record event { thread_id = none }
  ]

  unfoldable pub auto_create : InboundEvent → M MessagingGroup
  auto_create event = do
    id ← fresh_id host "mg-"
    let mg : MessagingGroup = record {
      id = id;
      channel_type = event.channel_type;
      platform_id = event.platform_id;
      name = none;
      is_group = event.message.is_group;
      unknown_sender_policy = request_approval;
      denied_at = none;
    }
    on_central (create_messaging_group mg)
    pure mg

  -- The chat's row and how many agents are wired to it.
  unfoldable pub locate : InboundEvent → M (Option (MessagingGroup × ℕ))
  locate event w =
      elim (get_messaging_group_by_platform w.central event.channel_type event.platform_id) [
        | some mg ↦ pure (some (mg, agent_count w.central mg)) w
        | none ↦
            if not event.message.is_mention
            then pure none w
            else (do
              mg ← auto_create event
              wired ← host.autowire mg event
              pure (some (wired.1, (if wired.0 then 1 else 0))))
                w
      ]

  unfoldable pub autowire_unwired : InboundEvent → MessagingGroup × ℕ → M (MessagingGroup × ℕ)
  autowire_unwired event (mg, count) =
      if num_eq count 0
      then (do wired ← host.autowire mg event; pure (wired.1, (if wired.0 then 1 else 0)))
      else pure (mg, count)

  unfoldable pub record_drop :
      InboundEvent → MessagingGroup → Option String → Json → String → M (Unit {0})
  record_drop event mg user_id parsed reason = do
    sender ← lift (property "sender" parsed)
    sender_name ← lift (bind_text sender)
    on_central (λ db. ok (
        record_dropped_message host.now
          (record {
            channel_type = event.channel_type;
            platform_id = event.platform_id;
            user_id = user_id;
            sender_name = sender_name;
            reason = reason;
            messaging_group_id = some mg.id;
            agent_group_id = none;
          })
          db))

  -- No wirings: silence, or an escalation to the owner.
  unfoldable pub route_unwired : InboundEvent → MessagingGroup → M (Unit {0})
  route_unwired event mg =
      if not event.message.is_mention || not (is_null mg.denied_at) then pure tt else (do
        record_drop event mg none (safe_parse_content host.engine host.now event.message.content)
            "no_agent_wired"
        if host.permissions then emit (request_channel_approval mg.id event) else pure tt)

  unfoldable pub resolve_sender : InboundEvent → M (Option String)
  resolve_sender event =
      if host.permissions then extract_and_upsert_user host.engine host.now event else pure none

  abbrev pub start : Tally
  start = record { engaged = 0; accumulated = 0; denied = 0; subscribed = false }

  -- `parsed.text ?? ''`
  abbrev pub message_text : Option Json → Json
  message_text none = str ""
  message_text (some Base.null) = str ""
  message_text (some text) = text

  unfoldable pub route_wired : InboundEvent → MessagingGroup → M (Unit {0})
  route_wired event mg = do
    user_id ← resolve_sender event
    agents ← (λ w. pure (get_messaging_group_agents w.central mg.id) w)
    let parsed = safe_parse_content host.engine host.now event.message.content
    text ← lift (property "text" parsed)
    tally ← fan_out host event mg user_id (message_text text) agents start
    if num_eq (tally.engaged + tally.accumulated) 0
        then record_drop event mg user_id parsed "no_agent_engaged"
        else pure tt

  unfoldable pub route_located : InboundEvent → MessagingGroup × ℕ → M (Unit {0})
  route_located event (mg, count) =
      if num_eq count 0 then route_unwired event mg else route_wired event mg

  unfoldable pub route_inbound_inner : InboundEvent → M (Unit {0})
  route_inbound_inner event = do
    found ← locate event
    elim found [
      | none ↦ pure tt
      | some located ↦ (do wired ← autowire_unwired event located; route_located event wired)
    ]

  unfoldable pub route_inbound : InboundEvent → M (Unit {0})
  route_inbound event = do
    consumed ← host.intercept event
    if consumed then pure tt else route_inbound_inner (apply_thread_policy event)
