-- ===== src/Delivery/Drain.antt =====
-- `drainSession` of src/delivery.ts, with the outbound queue and the delivered table of
-- src/db/session-db.ts. The session's root span is not modelled, but what would end it is. The
-- progress status and the typing indicator are left out, and taken not to throw. The write to the
-- delivered table is taken to succeed: where it failed after a message was sent, the source would
-- count an attempt and send the message again.
use multi_user_agent_platfor.Base.{
  ℕ, ◌+◌, Bool, true, false, not, ◌&&◌, Option, none, some, List, [], ◌∷◌, ◌++◌, String, ◌==◌,
  if◌then◌else◌, leb, is_null, select, exists, order_by, Result, ok, err, Json, Fields,
}
use multi_user_agent_platfor.Base
use multi_user_agent_platfor.Types.{MessageOut, Session}
use multi_user_agent_platfor.World.{World, messages_out}
use multi_user_agent_platfor.Router.Fanout.{get_agent_group}
use multi_user_agent_platfor.Delivery.Completion.{
  DeliveryCompletion, failed, derive_delivery_completion, is_user_visible_outbound,
  merge_completion,
}
use multi_user_agent_platfor.Delivery.Send.{Outlet, deliver_message}

pub data DeliveredStatus : Type 0 where
  delivered gave_up : DeliveredStatus

-- A row of the delivered table, with the session whose inbound.db holds it.
pub record DeliveredRow : Type 0 where
  pub agent_group_id : String
  pub session_id : String
  pub message_out_id : String
  pub platform_message_id : Option String
  pub status : DeliveredStatus
  pub delivered_at : ℕ

abbrev pub max_delivery_attempts : ℕ
max_delivery_attempts = 3

-- A drain: the world, the delivered tables, `deliveryAttempts` (0 where it has no entry), and the
-- drain's two variables.
pub record Queue : Type 0 where
  pub world : World
  pub delivered_rows : List DeliveredRow
  pub attempts : String → ℕ
  pub handled_outbound : Bool
  pub completion : Option DeliveryCompletion

-- `deliveryAttempts.set`; deleting an entry sets it to 0.
unfoldable pub set_attempts : String → ℕ → (String → ℕ) → String → ℕ
set_attempts id n attempts i = if i == id then n else attempts i

abbrev pub marks : Session → String → DeliveredRow → Bool
marks session id r =
    r.agent_group_id == session.agent_group_id
    && r.session_id == session.id
    && r.message_out_id == id

-- `delivered.has(id)`
unfoldable pub settled : List DeliveredRow → Session → String → Bool
settled rows session id = exists (marks session id) rows

-- `markDelivered` and `markDeliveryFailed`: INSERT OR IGNORE.
unfoldable pub mark :
    DeliveredStatus → ℕ → Session → String → Option String → List DeliveredRow → List DeliveredRow
mark status now session id platform_message_id rows =
    if settled rows session id
    then rows
    else rows
      ++ record {
        agent_group_id = session.agent_group_id;
        session_id = session.id;
        message_out_id = id;
        platform_message_id = platform_message_id;
        status = status;
        delivered_at = now;
      }
        ∷ []

abbrev pub due_now : ℕ → MessageOut → Bool
due_now now m = elim m.deliver_after [ none ↦ true | some t ↦ leb t now ]

unfoldable pub get_due_outbound_messages : ℕ → List MessageOut → List MessageOut
get_due_outbound_messages now rows = order_by (λ m. m.timestamp) (select (due_now now) rows)

abbrev pub as_record : Option Json → Option Fields
as_record (some (Base.obj fs)) = some fs
as_record _ = none

module _ (outlet : Outlet) where
  abbrev pub completion_of : MessageOut → Option Fields → Option DeliveryCompletion
  completion_of msg none = none
  completion_of msg (some content) = derive_delivery_completion outlet.host.engine msg content

  abbrev pub shown : MessageOut → Option Fields → Bool
  shown msg none = false
  shown msg (some content) = is_user_visible_outbound outlet.host.engine msg content

  abbrev pub parsed_content : MessageOut → Option Fields
  parsed_content msg = as_record (outlet.host.engine.json_parse msg.content)

  -- The message is done: marked, and its attempts forgotten.
  abbrev pub finish :
      DeliveredStatus
      → Session
      → MessageOut
      → Option String
      → Option DeliveryCompletion
      → World
      → Queue
      → Queue
  finish status session msg platform_message_id next w q = record {
    world = w;
    delivered_rows =
        mark status outlet.host.now session msg.id platform_message_id q.delivered_rows;
    attempts = set_attempts msg.id 0 q.attempts;
    handled_outbound = true;
    completion = merge_completion q.completion next;
  }

  abbrev pub failure : MessageOut → Option DeliveryCompletion
  failure msg =
      if shown msg (parsed_content msg)
      then some (record { kind = failed; output_value = none })
      else none

  abbrev pub count_attempt : MessageOut → World → Queue → Queue
  count_attempt msg w q = record {
    world = w;
    delivered_rows = q.delivered_rows;
    attempts = set_attempts msg.id (q.attempts msg.id + 1) q.attempts;
    handled_outbound = q.handled_outbound;
    completion = q.completion;
  }

  unfoldable pub retry_later : Session → MessageOut → World → Queue → Queue
  retry_later session msg w q =
      let attempts = q.attempts msg.id + 1 in
      if leb max_delivery_attempts attempts
      then finish gave_up session msg none (failure msg) w q
      else count_attempt msg w q

  unfoldable pub after_delivery :
      Result (Option String) × World → Session → MessageOut → Queue → Queue
  after_delivery (ok platform_message_id, w) session msg q =
      finish delivered session msg platform_message_id (completion_of msg (parsed_content msg)) w q
  after_delivery (err e, w) session msg q = retry_later session msg w q

  unfoldable pub deliver_one : Session → MessageOut → Queue → Queue
  deliver_one session msg q =
      if msg.kind == "llm-usage"
      then finish delivered session msg none none q.world q
      else after_delivery (deliver_message outlet msg session q.world) session msg q

  unfoldable pub deliver_all : Session → List MessageOut → Queue → Queue
  deliver_all session [] q = q
  deliver_all session (m ∷ ms) q = deliver_all session ms (deliver_one session m q)

  -- What the drain takes: read once, before the first message is delivered.
  unfoldable pub undelivered : Session → Queue → List MessageOut
  undelivered session q =
      select (λ m. not (settled q.delivered_rows session m.id))
        (get_due_outbound_messages outlet.host.now
          (messages_out q.world session.agent_group_id session.id))

  -- The messages of a drain, none where the session's agent group is gone.
  unfoldable pub to_deliver : Session → Queue → List MessageOut
  to_deliver session q =
      if is_null (get_agent_group q.world.central session.agent_group_id)
      then []
      else undelivered session q

  unfoldable pub drain_session : Session → Queue → Queue
  drain_session session q =
      if is_null (get_agent_group q.world.central session.agent_group_id)
      then q
      else deliver_all session (undelivered session q)
          (record q { handled_outbound = false; completion = none })

  -- How the turn ends: `none` where its root span stays open.
  unfoldable pub turn_end : Queue → Option DeliveryCompletion
  turn_end q = if q.handled_outbound then q.completion else none
