-- ===== src/AgentToAgent/Route.antt =====
-- src/modules/agent-to-agent/agent-route.ts and origin-user.ts. Spans are not modelled; copying the
-- files of a message and reading a group's container.json are parameters.
use multi_user_agent_platfor.Base.{
  ℕ, Bool, true, false, not, ◌&&◌, ◌||◌, Option, none, some, List, String, ◌==◌, if◌then◌else◌,
  truthy, coalesce, is_null, column_is, namespaced, leb, find, select, order_by_desc, Result, ok,
  err, thrown, Json, property, as_string,
}
use multi_user_agent_platfor.Host.{Host}
use multi_user_agent_platfor.Engine.{TextEngine}
use multi_user_agent_platfor.Types.{
  Central, MessagingGroup, MessageIn, chat, Session, agent, agent_shared, is_active, kind_is_chat,
}
use multi_user_agent_platfor.World.{World, M, pure, throw, lift, ◌>>=◌, ◌>>◌, messages_in}
use multi_user_agent_platfor.Sessions.Table.{get_session}
use multi_user_agent_platfor.Sessions.Resolve.{Scope}
use multi_user_agent_platfor.Router.Fanout.{get_agent_group}
use multi_user_agent_platfor.Router.Inbound.{get_messaging_group}
use multi_user_agent_platfor.Router.Deliver.{
  fresh_id, resolve, wake_session, write_outbound_direct, write_session_message,
}
use multi_user_agent_platfor.AgentToAgent.Destinations.{has_destination}

pub record RoutableAgentMessage : Type 0 where
  pub id : String
  pub platform_id : Option String
  pub content : String
  pub in_reply_to : Option String
  pub origin_user_id : Option String

abbrev pub default_max_spawn_depth : ℕ
default_max_spawn_depth = 2

-- `parsed` is the number in the environment; `none` where it is not set, not a number or negative.
unfoldable pub resolve_max_spawn_depth : Option ℕ → ℕ
resolve_max_spawn_depth none = default_max_spawn_depth
resolve_max_spawn_depth (some parsed) = if leb 1 parsed then parsed else default_max_spawn_depth

-- ORDER BY seq DESC LIMIT 1
abbrev pub latest : List MessageIn → Option MessageIn
latest ms = find (λ _. true) (order_by_desc (λ m. m.seq) ms)

abbrev pub source_of : Option MessageIn → Option String
source_of none = none
source_of (some m) = m.source_session_id

unfoldable pub get_inbound_source_session_id : List MessageIn → String → Option String
get_inbound_source_session_id ms id = source_of (find (λ m. m.id == id) ms)

unfoldable pub get_most_recent_peer_source_session_id : List MessageIn → String → Option String
get_most_recent_peer_source_session_id ms peer = source_of (
    latest (
      select
        (λ m.
          column_is m.channel_type "agent"
          && column_is m.platform_id peer
          && not (is_null m.source_session_id))
        ms))

module _ (engine : TextEngine) where
  abbrev pub named_sender : Option String → String → Option String
  named_sender channel_type raw =
      if raw == ""
      then none
      else if engine.has_colon raw || not (truthy channel_type)
      then some raw
      else some (namespaced (coalesce channel_type "") raw)

  abbrev pub sender_of : MessageIn → Result (Option Json) → Option String
  sender_of m (err _) = none
  sender_of m (ok value) =
      named_sender m.channel_type
        (elim (as_string value) [ none ↦ "" | some raw ↦ engine.trim raw ])

  unfoldable pub origin_of : Option MessageIn → Option String
  origin_of none = none
  origin_of (some m) =
      if truthy m.origin_user_id then m.origin_user_id else (elim (engine.json_parse m.content) [
        | none ↦ none
        | some content ↦ sender_of m (property "senderId" content)
      ])

  -- Whose turn it is, by the last chat message of the session.
  unfoldable pub resolve_origin_user_id : List MessageIn → Option String
  resolve_origin_user_id ms = origin_of (latest (select (λ m. kind_is_chat m.kind) ms))

module _ (host : Host) (env_max_spawn_depth : Option ℕ) (root_session_mode : String → Bool)
    (forward_file_attachments : RoutableAgentMessage
      → String
      → Session
      → String
      → String
      → Result String) where
  -- The session that a reply goes back to, by its id, and whether `in_reply_to` names it.
  unfoldable pub return_path : List MessageIn → RoutableAgentMessage → String → Option String × Bool
  return_path ms msg target =
      let direct =
        if truthy msg.in_reply_to
        then get_inbound_source_session_id ms (coalesce msg.in_reply_to "")
        else none in
      if truthy direct
      then (direct, true)
      else (get_most_recent_peer_source_session_id ms target, false)

  -- The candidate is taken where it is a live session of the target.
  unfoldable pub returning : Central → Option String → String → Option Session
  returning db origin target =
      if not (truthy origin) then none else (elim (get_session db (coalesce origin "")) [
        | none ↦ none
        | some s ↦ if s.agent_group_id == target && is_active s.status then some s else none
      ])

  abbrev pub a2a_scope : Session → String → Scope
  a2a_scope source target =
      let rooted = root_session_mode target in
      record {
        agent_group_id = target;
        messaging_group_id = none;
        thread_id = none;
        session_mode = agent_shared;
        owner_user_id = if rooted then source.owner_user_id else none;
        root_session_id = if rooted then some (coalesce source.root_session_id source.id) else none;
        source_depth = some source.spawn_depth;
      }

  unfoldable pub target_session : Option Session → Session → String → Bool → M (Session × Bool)
  target_session (some s) source target direct = pure (s, direct)
  target_session none source target direct = do
    found ← resolve host (a2a_scope source target)
    pure (found.0, false)

  unfoldable pub resolve_target_session :
      RoutableAgentMessage → Session → String → M (Session × Bool)
  resolve_target_session msg source target w =
      let path = return_path (messages_in w source.agent_group_id source.id) msg target in
      target_session (returning w.central path.0 target) source target path.1 w

  -- A direct reply goes to the chat of the session that asked.
  unfoldable pub relay_to : Option MessagingGroup → Session → RoutableAgentMessage → String → M Bool
  relay_to none target msg content = pure false
  relay_to (some mg) target msg content = do
    id ← fresh_id host "a2a-relay-"
    write_outbound_direct host target.agent_group_id target.id (record {
      id = id;
      in_reply_to = msg.in_reply_to;
      timestamp = host.now;
      deliver_after = none;
      kind = "chat";
      platform_id = some mg.platform_id;
      channel_type = some mg.channel_type;
      thread_id = target.thread_id;
      content = content;
      origin_user_id = none;
    })

  unfoldable pub relay_direct_return : Bool → Session → RoutableAgentMessage → String → M Bool
  relay_direct_return direct target msg content w =
      if not direct || not (truthy target.messaging_group_id)
      then pure false w
      else relay_to (get_messaging_group w.central (coalesce target.messaging_group_id "")) target
          msg content w

  unfoldable pub origin_user : RoutableAgentMessage → Session → World → Option String
  origin_user msg source w =
      let stamped = msg.origin_user_id in
      let chatting =
        resolve_origin_user_id host.engine (messages_in w source.agent_group_id source.id) in
      if truthy stamped then stamped else if truthy chatting then chatting else source.owner_user_id

  unfoldable pub hand_over :
      String → Session → String → String → Option String → Session → M (Unit {0})
  hand_over id target target_group content user source = do
    write_session_message host target_group target.id (record {
      id = id;
      kind = chat;
      timestamp = host.now;
      platform_id = some source.agent_group_id;
      channel_type = some "agent";
      thread_id = none;
      content = content;
      process_after = none;
      recurrence = none;
      trigger = true;
      source_session_id = some source.id;
      origin_user_id = user;
    })
    wake_session host target.id

  -- A direct reply is relayed where it can be; else the message is handed over.
  unfoldable pub settle :
      String → Session × Bool → String → String → RoutableAgentMessage → Session → M (Unit {0})
  settle id found target content msg source w =
      let user = origin_user msg source w in
      (do
        relayed ← relay_direct_return found.1 found.0 msg content
        if relayed then pure tt else hand_over id found.0 target content user source)
        w

  -- The message is allowed: it goes to a session of the target.
  unfoldable pub carry : RoutableAgentMessage → Session → String → M (Unit {0})
  carry msg source target = do
    found ← resolve_target_session msg source target
    id ← fresh_id host "a2a-"
    content ← lift (forward_file_attachments msg id source target found.0.id)
    settle id found target content msg source

  -- The guards, in their order; `none` where the message is allowed.
  unfoldable pub objection : Central → Session → String → Option String
  objection db source target =
      if target == ""
      then some "missing a target agent group id"
      else if not (target == source.agent_group_id)
          && not (has_destination db source.agent_group_id agent target)
      then some "unauthorized agent-to-agent"
      else if is_null (get_agent_group db target)
      then some "target agent group not found"
      else if not (target == source.agent_group_id)
          && leb (resolve_max_spawn_depth env_max_spawn_depth) source.spawn_depth
      then some "spawn-depth cap exceeded"
      else none

  unfoldable pub route_unless : Option String → RoutableAgentMessage → Session → M (Unit {0})
  route_unless (some reason) msg source = throw (thrown reason)
  route_unless none msg source = carry msg source (coalesce msg.platform_id "")

  unfoldable pub route_agent_message : RoutableAgentMessage → Session → M (Unit {0})
  route_agent_message msg source w =
      route_unless (objection w.central source (coalesce msg.platform_id "")) msg source w
