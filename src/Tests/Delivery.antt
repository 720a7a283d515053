-- ===== src/Tests/Delivery.antt =====
-- The delivery of outbound messages at concrete inputs.
use multi_user_agent_platfor.Base.{
  ℕ, ◌<◌, Bool, true, false, ◌||◌, Option, none, some, List, [], ◌∷◌, ◌++◌, ◌≡◌, refl, inl, arith,
  eq_iff, Result, ok, err, thrown, truthy, Json, Fields, obj, field, str, end,
}
use multi_user_agent_platfor.Types.{MessageOut, Session, ClassificationRow}
use multi_user_agent_platfor.World.{World, OutboxRow, ◌>>◌, classification_bypass}
use multi_user_agent_platfor.Delivery.Classification.{
  ask_user_question, channel_send, agent_send, link_outcome, reconcile_classification,
}
use multi_user_agent_platfor.Delivery.ClarifyCard.{clarify_card-counted}
use multi_user_agent_platfor.Delivery.Send.{Outlet, close_loops, deliver_message}
use multi_user_agent_platfor.Delivery.Permission.{deliver_message-refuses}
use multi_user_agent_platfor.Delivery.Drain.{Queue, settled, deliver_all, drain_session, turn_end}
use multi_user_agent_platfor.Delivery.Turns.{ends_answered, deliver_all-answers}
use multi_user_agent_platfor.Delivery.Retries.{
  Bounded, Waiting, drain_in, drain_session-Bounded, drain_session-settles,
}
use multi_user_agent_platfor.Delivery.Polls.{
  Drain, Accepted, Polls, fresh, started, handed, resumed,
}
use multi_user_agent_platfor.Tests.Data.{host, central, world, desk_session}

-- The adapter refuses what it gets for the chat "chat" where `up` is false.
abbrev pub outlet : Bool → Outlet
outlet up = record {
  host = host;
  adapter_ready = true;
  deliver = λ w m content. elim up [ true ↦ ok (some "p-1") | false ↦ err (thrown "offline") ];
  action_handlers = λ action. none;
  has_agent_destinations = true;
  has_classification_log = true;
  has_pending_questions = true;
  env_max_spawn_depth = none;
  root_session_mode = λ group. false;
  forward_file_attachments = λ m id source target session. ok m.content;
}

abbrev pub reply : MessageOut
reply = record {
  id = "out-1";
  in_reply_to = none;
  timestamp = 10;
  deliver_after = none;
  kind = "chat";
  platform_id = some "chat";
  channel_type = some "tg";
  thread_id = none;
  content = "hello";
  origin_user_id = none;
}

abbrev queued_world : World
queued_world = record world {
  outbox = record { agent_group_id = "desk"; session_id = "s-1"; message = reply } ∷ [];
}

abbrev queue : Queue
queue = record {
  world = queued_world;
  delivered_rows = [];
  attempts = λ id. 0;
  handled_outbound = false;
  completion = none;
}

queue-Bounded : Bounded queue
unfolding Bounded
queue-Bounded id = ground arith

drain_session-Bounded_example : Bounded (drain_session (outlet false) desk_session queue)
drain_session-Bounded_example =
    drain_session-Bounded (outlet false) desk_session queue queue-Bounded

reply-Waiting : Waiting (outlet false) desk_session reply queued_world
unfolding multi_user_agent_platfor.Router.Fanout.get_agent_group multi_user_agent_platfor.Base.find
    multi_user_agent_platfor.Delivery.Drain.get_due_outbound_messages
    multi_user_agent_platfor.Base.order_by multi_user_agent_platfor.Base.select
    multi_user_agent_platfor.World.messages_out
reply-Waiting = record { group_there = refl; queued = inl refl }

drain_session-settles_example :
    settled
      (drain_in (outlet false) desk_session queued_world (
        drain_in
          (outlet false)
          desk_session
          queued_world
          (drain_in (outlet false) desk_session queued_world queue))).delivered_rows
      desk_session
      "out-1"
    ≡ true
drain_session-settles_example =
    drain_session-settles (outlet false) desk_session reply queue queued_world queued_world
      queued_world queue-Bounded reply-Waiting reply-Waiting reply-Waiting

-- A session that belongs to no chat, and whose agent has no chat as a destination.
abbrev stray_session : Session
stray_session = record desk_session { messaging_group_id = none }

deliver_message-refuses_example :
    (e : multi_user_agent_platfor.Base.Error) × (deliver_message
        (outlet true)
        reply
        stray_session
        world
      ≡ (err e, world))
unfolding multi_user_agent_platfor.Router.Inbound.get_messaging_group_by_platform
    multi_user_agent_platfor.Base.find multi_user_agent_platfor.Delivery.Send.may_send
    multi_user_agent_platfor.AgentToAgent.Destinations.has_destination
    multi_user_agent_platfor.Base.exists
deliver_message-refuses_example =
    deliver_message-refuses (outlet true) reply stray_session world refl refl refl refl refl

abbrev delivered_world : World
delivered_world = (deliver_message (outlet true) reply desk_session queued_world).1

deliver_all-answers_example :
    ends_answered
      (turn_end (outlet true) (deliver_all (outlet true) desk_session (reply ∷ []) queue))
    ≡ true
unfolding multi_user_agent_platfor.Delivery.Completion.is_user_visible_outbound
    multi_user_agent_platfor.Base.lookup_field deliver_message
    multi_user_agent_platfor.Delivery.Send.deliver_content
    multi_user_agent_platfor.Delivery.Send.send_to_channel
    multi_user_agent_platfor.Delivery.Send.check_destination
    multi_user_agent_platfor.Delivery.Send.check_chat
    multi_user_agent_platfor.Router.Inbound.get_messaging_group_by_platform
    multi_user_agent_platfor.Base.find deliver_all multi_user_agent_platfor.Delivery.Send.may_send
    multi_user_agent_platfor.Delivery.Send.close_loops
    multi_user_agent_platfor.Delivery.Send.track_question
    multi_user_agent_platfor.Delivery.Send.hand_to_adapter
deliver_all-answers_example =
    deliver_all-answers (outlet true) desk_session [] [] reply queue (some "p-1") delivered_world
      refl refl refl

abbrev clarified : ClassificationRow
clarified = record {
  classification_id = some "c-1";
  session_id = some "s-1";
  action = "clarify";
  outcome_ref = none;
}

abbrev classified_world : World
classified_world = record world { central = record central { classification_log = clarified ∷ [] } }

abbrev card_fields : Fields
card_fields = field "type" (str "ask_question") (field "_classificationId" (str "c-1") end)

abbrev closed_world : World
closed_world = (close_loops (outlet true) (obj card_fields) reply desk_session classified_world).1

clarify_card-counted_example :
    (closed_world.central.classification_log
      ≡ (link_outcome "c-1" reply.id desk_session.id classified_world.central).classification_log)
    × (closed_world.effects
        ≡ classified_world.effects ++ classification_bypass "action_mismatch" "channel_send" ∷ [])
unfolding multi_user_agent_platfor.Base.lookup_field
    multi_user_agent_platfor.Delivery.Classification.find_classification_by_id
    multi_user_agent_platfor.Base.find close_loops
    multi_user_agent_platfor.Delivery.Send.track_question reconcile_classification
    multi_user_agent_platfor.Delivery.Classification.reconcile_read
    multi_user_agent_platfor.Delivery.Classification.reconcile_id
    multi_user_agent_platfor.Delivery.Classification.reconcile_row link_outcome
    multi_user_agent_platfor.Base.update_where
clarify_card-counted_example =
    clarify_card-counted (outlet true) reply desk_session card_fields "c-1" classified_world
      closed_world clarified refl refl refl refl refl refl refl refl

abbrev p1 : Polls
p1 = started (outlet true) (fresh queue) desk_session

abbrev p2 : Polls
p2 = handed (outlet true) p1 desk_session reply []

abbrev p3 : Polls
p3 = resumed (outlet true) p2 desk_session reply [] (ok (some "p-1"))
