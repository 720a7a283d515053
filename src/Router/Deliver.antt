-- ===== src/Router/Deliver.antt =====
-- `deliverToAgent` of src/router.ts, with the writes of src/session-manager.ts that it makes.
-- Spans, typing indicators and progress reactions are not modelled.
use Prim.Native.String
use multi_user_agent_platfor.Base.{
  ◌+◌, Bool, true, false, not, ◌&&◌, Option, none, some, List, [], ◌∷◌, ◌++◌, String, ◌==◌,
  if◌then◌else◌, truthy, coalesce, is_null, namespaced, Result, ok, err, thrown, obj, field, str,
  end, exists,
}
use multi_user_agent_platfor.Host.{Host}
use multi_user_agent_platfor.Types.{
  Central, MessagingGroup, MessagingGroupAgent, InboundEvent, DeliveryAddress, Session, SessionMode,
  MessageIn, MessageOut, kind_is_chat, is_user_scoped_session_mode,
}
use multi_user_agent_platfor.World.{
  M, pure, throw, lift, emit, on_central, ◌>>=◌, ◌>>◌, OutboxRow, messages_in, in_outbox,
  wake_container,
}
use multi_user_agent_platfor.SessionDb.Inbound.{
  NewMessage, message_row, next_even_seq, insert_message,
}
use multi_user_agent_platfor.Sessions.Table.{get_session, update_session}
use multi_user_agent_platfor.Sessions.Resolve.{Scope, resolve_session}
use multi_user_agent_platfor.Permissions.CommandGate.{GateResult, pass, filter, deny, gate_command}

unfoldable pub inserted : String → String → MessageIn → Result (List MessageIn) → M (Unit {0})
inserted agent_group_id session_id row (err e) w = throw e w
inserted agent_group_id session_id row (ok _) w = pure tt (record w {
  inbox =
      w.inbox
      ++ record { agent_group_id = agent_group_id; session_id = session_id; message = row } ∷ [];
})

-- `insertMessage` on the inbound.db of one session.
unfoldable pub insert_into_session : String → String → NewMessage → M (Unit {0})
insert_into_session agent_group_id session_id m w =
    let ms = messages_in w agent_group_id session_id in
    inserted agent_group_id session_id (message_row m (next_even_seq ms)) (insert_message m ms) w

-- INSERT OR IGNORE: the id is the key of the session's messages_out.
unfoldable pub insert_outbound : OutboxRow → List OutboxRow → List OutboxRow
insert_outbound row rows =
    if exists (λ r. in_outbox row.agent_group_id row.session_id r && r.message.id == row.message.id)
      rows
    then rows
    else rows ++ row ∷ []

module _ (host : Host) where
  -- `writeSessionMessage`: attachments go to files, the row to messages_in, the time to the session.
  unfoldable pub write_session_message : String → String → NewMessage → M (Unit {0})
  write_session_message agent_group_id session_id m = do
    content ← lift (host.extract_attachments agent_group_id session_id m.id m.content)
    insert_into_session agent_group_id session_id (record m { content = content })
    on_central (λ db. ok (
        update_session session_id
          (record {
            status = none;
            container_status = none;
            last_active = some host.now;
            archived_at = none;
          })
          db))

  -- `writeOutboundDirect`: INSERT OR IGNORE into messages_out, false where the file is busy.
  unfoldable pub write_outbound_direct : String → String → MessageOut → M Bool
  write_outbound_direct agent_group_id session_id m w =
      if host.outbound_free w
      then pure true (record w {
        outbox =
            insert_outbound
              (record { agent_group_id = agent_group_id; session_id = session_id; message = m })
              w.outbox;
      })
      else pure false w

  unfoldable pub fresh_id : String → M String
  fresh_id prefix w =
      pure (String.◌++◌ prefix (host.gen w.draws)) (record w { draws = w.draws + 1 })

  unfoldable pub message_id_for_agent : String → String → M String
  message_id_for_agent base_id agent_group_id = do
    id ← if base_id == "" then fresh_id "msg-" else pure base_id
    pure (namespaced id agent_group_id)

  abbrev pub delivery_address : InboundEvent → DeliveryAddress
  delivery_address event = coalesce event.reply_to (record {
    channel_type = event.channel_type;
    platform_id = event.platform_id;
    thread_id = event.thread_id;
  })

  abbrev pub channel_scope :
      MessagingGroupAgent → MessagingGroup → InboundEvent → Option String → SessionMode → Scope
  channel_scope agent mg event user_id mode = record {
    agent_group_id = agent.agent_group_id;
    messaging_group_id = some mg.id;
    thread_id = event.thread_id;
    session_mode = mode;
    owner_user_id = user_id;
    root_session_id = none;
    source_depth = none;
  }

  unfoldable pub resolve : Scope → M (Session × Bool)
  resolve sc = resolve_session (λ n. String.◌++◌ "sess-" (host.gen n)) host.now sc

  -- The command gate refused: the denial goes straight to the outbox.
  unfoldable pub deny_command :
      MessagingGroupAgent
      → MessagingGroup
      → InboundEvent
      → Option String
      → SessionMode
      → String
      → M (Unit {0})
  deny_command agent mg event user_id mode command = do
    found ← resolve (channel_scope agent mg event user_id mode)
    id ← fresh_id "deny-"
    _ ← write_outbound_direct found.0.agent_group_id found.0.id (record {
      id = id;
      in_reply_to = some event.message.id;
      timestamp = host.now;
      deliver_after = none;
      kind = "chat";
      platform_id = some (delivery_address event).platform_id;
      channel_type = some (delivery_address event).channel_type;
      thread_id = (delivery_address event).thread_id;
      content = host.engine.stringify (
          obj (
            field "text"
              (str
                (String.◌++◌ "Permission denied: " (String.◌++◌ command " requires admin access.")))
              end));
      origin_user_id = none;
    })
    pure tt

  unfoldable pub wake_session : String → M (Unit {0})
  wake_session session_id w =
      if is_null (get_session w.central session_id)
      then pure tt w
      else emit (wake_container session_id) w

  -- The message goes to the inbox of the agent's session, and wakes it if it is to.
  unfoldable pub hand_to_session :
      MessagingGroupAgent
      → MessagingGroup
      → InboundEvent
      → Option String
      → SessionMode
      → Bool
      → M (Unit {0})
  hand_to_session agent mg event user_id mode wake = do
    _ ←
        if is_user_scoped_session_mode mode && not (truthy user_id)
        then throw {A = Unit {0}} (thrown "userId is required")
        else pure tt
    found ← resolve (channel_scope agent mg event user_id mode)
    id ← message_id_for_agent event.message.id agent.agent_group_id
    write_session_message found.0.agent_group_id found.0.id (record {
      id = id;
      kind = event.message.kind;
      timestamp = event.message.timestamp;
      platform_id = some (delivery_address event).platform_id;
      channel_type = some (delivery_address event).channel_type;
      thread_id = (delivery_address event).thread_id;
      content = event.message.content;
      process_after = none;
      recurrence = none;
      trigger = wake;
      source_session_id = none;
      origin_user_id = none;
    })
    if wake then wake_session found.0.id else pure tt

  unfoldable pub gate : Central → MessagingGroupAgent → InboundEvent → Option String → GateResult
  gate db agent event user_id =
      if kind_is_chat event.message.kind
      then gate_command host.engine host.permissions db event.message.content user_id
          agent.agent_group_id
      else pass

  unfoldable pub by_gate :
      GateResult
      → MessagingGroupAgent
      → MessagingGroup
      → InboundEvent
      → Option String
      → SessionMode
      → Bool
      → M (Unit {0})
  by_gate filter agent mg event user_id mode wake = pure tt
  by_gate (deny command) agent mg event user_id mode wake =
      deny_command agent mg event user_id mode command
  by_gate pass agent mg event user_id mode wake = hand_to_session agent mg event user_id mode wake

  unfoldable pub deliver_to_agent :
      MessagingGroupAgent
      → MessagingGroup
      → InboundEvent
      → Option String
      → SessionMode
      → Bool
      → M (Unit {0})
  deliver_to_agent agent mg event user_id mode wake w =
      by_gate (gate w.central agent event user_id) agent mg event user_id mode wake w
