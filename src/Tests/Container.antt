-- ===== src/Tests/Container.antt =====
-- The container's databases at concrete inputs.
use multi_user_agent_platfor.Base.{
  ℕ, Bool, true, false, none, some, List, [], ◌∷◌, ◌++◌, String, ◌==◌, ◌≡◌, ◌≢◌, refl, inl, In,
  exists, Result, ok,
}
use multi_user_agent_platfor.Types.{MessageIn, chat}
use multi_user_agent_platfor.SessionDb.Inbound.{
  NewMessage, ProcessingAck, message_row, sync_processing_acks,
}
use multi_user_agent_platfor.Container.Inbox.{get_pending_messages, mark_processing, mark_completed}
use multi_user_agent_platfor.Container.Claims.{listed, get_pending_messages-spares_completed}
use multi_user_agent_platfor.Container.Outbox.{
  NumberedOut, DeliveredId, get_message_id_by_seq, write_message_out,
}
use multi_user_agent_platfor.Container.Numbers.{Writes, empty, and_write, by_host, by_container}
use multi_user_agent_platfor.Container.Naming.{get_message_id_by_seq-Writes}
use multi_user_agent_platfor.Tests.Delivery.{reply}

abbrev question : NewMessage
question = record {
  id = "m-1";
  kind = chat;
  timestamp = 1;
  platform_id = none;
  channel_type = none;
  thread_id = none;
  content = "hello";
  process_after = none;
  recurrence = none;
  trigger = true;
  source_session_id = none;
  origin_user_id = none;
}

abbrev asked : MessageIn
asked = message_row question 2

abbrev other : MessageIn
other = message_row (record question { id = "m-2" }) 4

abbrev inbox : List MessageIn
inbox = asked ∷ other ∷ []

get_pending_messages-spares_completed_example : listed "m-2" ("m-1" ∷ []) ≡ false
unfolding get_pending_messages multi_user_agent_platfor.Container.Inbox.reverse
    multi_user_agent_platfor.Base.select multi_user_agent_platfor.Container.Inbox.take
    multi_user_agent_platfor.Base.order_by_desc sync_processing_acks
    multi_user_agent_platfor.SessionDb.Inbound.complete_all mark_completed
    multi_user_agent_platfor.Container.Inbox.put_acks
    multi_user_agent_platfor.Container.Inbox.put_ack multi_user_agent_platfor.Base.delete_where
    multi_user_agent_platfor.SessionDb.Inbound.complete_one
    multi_user_agent_platfor.Base.update_where multi_user_agent_platfor.Container.Inbox.is_acked
    exists
get_pending_messages-spares_completed_example =
    get_pending_messages-spares_completed 5 6 10 ("m-1" ∷ []) [] [] inbox other (inl refl)

abbrev answer : NumberedOut
answer = record { seq = 3; message = reply }

written : Writes (answer ∷ []) (asked ∷ [])
unfolding multi_user_agent_platfor.SessionDb.Inbound.insert_message
    multi_user_agent_platfor.SessionDb.Inbound.insert_row exists
    multi_user_agent_platfor.SessionDb.Inbound.next_even_seq
    multi_user_agent_platfor.SessionDb.Inbound.max_seq write_message_out
    multi_user_agent_platfor.Container.Outbox.next_odd_seq
    multi_user_agent_platfor.Container.Outbox.max_out
written =
    and_write [] (answer ∷ []) (asked ∷ []) (asked ∷ [])
      (and_write [] [] [] (asked ∷ []) empty (by_host question [] [] (asked ∷ []) refl))
      (by_container reply [] (answer ∷ []) (asked ∷ []) 3 refl)

abbrev sent : DeliveredId
sent = record { message_out_id = reply.id; platform_message_id = some "D-1:7" }

get_message_id_by_seq-Writes_example :
    get_message_id_by_seq 3 (asked ∷ []) (answer ∷ []) (sent ∷ []) ≡ some "D-1:7"
unfolding multi_user_agent_platfor.Base.find
get_message_id_by_seq-Writes_example =
    get_message_id_by_seq-Writes (answer ∷ []) (asked ∷ []) (sent ∷ []) answer written (inl refl)
