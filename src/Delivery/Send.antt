-- ===== src/Delivery/Send.antt =====
-- `deliverMessage` and `handleSystemAction` of src/delivery.ts. Spans and logs are not modelled.
use multi_user_agent_platfor.Base.{
  ℕ, Bool, true, false, not, ◌&&◌, ◌||◌, Option, none, some, List, [], ◌∷◌, ◌++◌, String, ◌==◌,
  if◌then◌else◌, truthy, coalesce, column_is, exists, Result, ok, err, thrown, Json, Fields, field,
  end, obj, lookup_field, property, as_string, bind_text,
}
use multi_user_agent_platfor.Base
use multi_user_agent_platfor.Host.{Host}
use multi_user_agent_platfor.Types.{Central, MessagingGroup, MessageOut, Session, channel}
use multi_user_agent_platfor.World.{
  World, M, pure, throw, lift, emit, on_central, ◌>>=◌, ◌>>◌, send,
}
use multi_user_agent_platfor.AgentToAgent.Destinations.{has_destination}
use multi_user_agent_platfor.AgentToAgent.Route.{RoutableAgentMessage, route_agent_message}
use multi_user_agent_platfor.Router.Inbound.{get_messaging_group_by_platform}
use multi_user_agent_platfor.Delivery.Classification.{
  agent_send, ask_user_question, channel_send, reconcile_classification,
}
use multi_user_agent_platfor.Delivery.Completion.{strip_think_tags, text_is}
use multi_user_agent_platfor.Delivery.Questions.{
  json_truthy, normalize_options, create_pending_question,
}

-- What is outside the modelled code where a message is delivered.
pub record Outlet : Type 0 where
  pub host : Host
  -- `setDeliveryAdapter` has been called
  pub adapter_ready : Bool
  -- `deliveryAdapter.deliver` with the content to send and the files of the outbox; it answers the
  -- platform's id of the message
  pub deliver : World → MessageOut → String → Result (Option String)
  -- the handlers of `registerDeliveryAction`
  pub action_handlers : String → Option (Json → Session → M (Unit {0}))
  -- `hasTable`
  pub has_agent_destinations : Bool
  pub has_classification_log : Bool
  pub has_pending_questions : Bool
  -- the parameters of routing to agents
  pub env_max_spawn_depth : Option ℕ
  pub root_session_mode : String → Bool
  pub forward_file_attachments :
      RoutableAgentMessage → String → Session → String → String → Result String

-- The properties of a value; only objects have some of those that are read here.
abbrev pub fields_of : Json → Fields
fields_of (Base.obj fs) = fs
fields_of _ = end

-- `{ ...content, k: value }` where `k` is there
unfoldable pub set_field : String → Json → Fields → Fields
set_field k value Base.end = Base.end
set_field k value (Base.field j v fs) =
    if j == k then Base.field j value fs else Base.field j v (set_field k value fs)

-- A statement under an `if`.
abbrev pub when : Bool → M (Unit {0}) → M (Unit {0})
when b m w = if b then m w else pure tt w

module _ (outlet : Outlet) where
  abbrev pub call_handler : Option (Json → Session → M (Unit {0})) → Json → Session → M (Unit {0})
  call_handler none content session = pure tt
  call_handler (some registered) content session = registered content session

  abbrev pub registered_handler : Option String → Option (Json → Session → M (Unit {0}))
  registered_handler none = none
  registered_handler (some action) = outlet.action_handlers action

  unfoldable pub handle_system_action : Json → Session → M (Unit {0})
  handle_system_action content session = do
    action ← lift (property "action" content)
    call_handler (registered_handler (as_string action)) content session

  abbrev pub routable : MessageOut → RoutableAgentMessage
  routable msg = record {
    id = msg.id;
    platform_id = msg.platform_id;
    content = msg.content;
    in_reply_to = msg.in_reply_to;
    origin_user_id = msg.origin_user_id;
  }

  unfoldable pub send_to_agent : Json → MessageOut → Session → M (Unit {0})
  send_to_agent content msg session w =
      if outlet.has_agent_destinations
      then (do
        when outlet.has_classification_log
            (reconcile_classification content msg.id agent_send session.id)
        route_agent_message outlet.host outlet.env_max_spawn_depth outlet.root_session_mode
            outlet.forward_file_attachments (routable msg) session)
          w
      else throw (thrown "agent-to-agent module not installed") w

  -- Whether the source agent may send to this chat.
  unfoldable pub may_send : Central → Session → MessagingGroup → Bool
  may_send db session mg =
      column_is session.messaging_group_id mg.id
      || not outlet.has_agent_destinations
      || has_destination db session.agent_group_id channel mg.id

  unfoldable pub check_chat : Option MessagingGroup → Session → M (Unit {0})
  check_chat none session w = throw (thrown "unknown messaging group") w
  check_chat (some mg) session w =
      if may_send w.central session mg
      then pure tt w
      else throw (thrown "unauthorized channel destination") w

  abbrev pub addressed : MessageOut → Bool
  addressed msg = truthy msg.channel_type && truthy msg.platform_id

  abbrev pub target_chat : Central → MessageOut → Option MessagingGroup
  target_chat db msg =
      get_messaging_group_by_platform db (coalesce msg.channel_type "")
        (coalesce msg.platform_id "")

  unfoldable pub check_destination : MessageOut → Session → M (Unit {0})
  check_destination msg session w =
      when (addressed msg) (check_chat (target_chat w.central msg) session) w

  -- A question is kept where it has a title and options. Its id and title are not empty here.
  unfoldable pub keep_question :
      Option Json → Option Json → Option Json → MessageOut → Session → M (Unit {0})
  keep_question question_id title (some (Base.arr items)) msg session w =
      when (json_truthy title)
        (do
          options ← lift (normalize_options items)
          id ← lift (bind_text question_id)
          bound ← lift (bind_text title)
          on_central (
              create_pending_question (record {
                question_id = coalesce id "";
                session_id = session.id;
                message_out_id = msg.id;
                platform_id = msg.platform_id;
                channel_type = msg.channel_type;
                thread_id = msg.thread_id;
                title = coalesce bound "";
                options = options;
                created_at = outlet.host.now;
              })))
        w
  keep_question question_id title _ msg session w = pure tt w

  unfoldable pub track_question : Fields → MessageOut → Session → M (Unit {0})
  track_question content msg session =
      when
        (text_is (lookup_field "type" content) "ask_question"
          && json_truthy (lookup_field "questionId" content)
          && outlet.has_pending_questions)
        (keep_question (lookup_field "questionId" content) (lookup_field "title" content)
          (lookup_field "options" content) msg session)

  abbrev pub cleaned_content : Option String → MessageOut → Fields → String
  cleaned_content none msg content = msg.content
  cleaned_content (some text) msg content =
      let cleaned = strip_think_tags outlet.host.engine text in
      if cleaned == text
      then msg.content
      else outlet.host.engine.stringify (obj (set_field "text" (Base.str cleaned) content))

  unfoldable pub hand_to_adapter : Fields → MessageOut → M (Option String)
  hand_to_adapter content msg w =
      if addressed msg
      then (do
        emit (send (coalesce msg.channel_type "") (coalesce msg.platform_id "") msg.id)
        lift (
            outlet.deliver w msg
              (cleaned_content (as_string (lookup_field "text" content)) msg content)))
          w
      else pure none w

  -- The loop-closing of the classification: a card first, then any reply that carries an id.
  unfoldable pub close_loops : Json → MessageOut → Session → M (Unit {0})
  close_loops content msg session = do
    kind ← lift (property "type" content)
    when (text_is kind "ask_question" && outlet.has_classification_log)
        (reconcile_classification content msg.id ask_user_question session.id)
    track_question (fields_of content) msg session
    when
        (truthy (as_string (lookup_field "_classificationId" (fields_of content)))
          && outlet.has_classification_log)
        (reconcile_classification content msg.id channel_send session.id)

  unfoldable pub send_to_channel : Json → MessageOut → Session → M (Option String)
  send_to_channel content msg session = do
    check_destination msg session
    close_loops content msg session
    hand_to_adapter (fields_of content) msg

  unfoldable pub deliver_content : Option Json → MessageOut → Session → M (Option String)
  deliver_content none msg session = throw (thrown "JSON.parse")
  deliver_content (some content) msg session =
      if msg.kind == "system"
      then (do handle_system_action content session; pure none)
      else if column_is msg.channel_type "agent"
      then (do send_to_agent content msg session; pure none)
      else send_to_channel content msg session

  unfoldable pub deliver_message : MessageOut → Session → M (Option String)
  deliver_message msg session =
      if outlet.adapter_ready
      then deliver_content (outlet.host.engine.json_parse msg.content) msg session
      else pure none
