-- ===== src/Container/Inbox.antt =====
-- container/agent-runner/src/db/messages-in.ts: the container reads messages_in and writes processing_ack.
use multi_user_agent_platfor.Base.{
  ℕ, zero, suc, Bool, not, ◌&&◌, Option, none, some, List, [], ◌∷◌, ◌++◌, String, ◌==◌,
  if◌then◌else◌, find, select, exists, delete_where, order_by_desc,
}
use multi_user_agent_platfor.Types.{
  MessageIn, MessageInStatus, pending, processing, completed, failed, status_is,
}
use multi_user_agent_platfor.SessionDb.Inbound.{ProcessingAck, is_due, is_processing}

-- LIMIT n
unfoldable pub take : ℕ → List MessageIn → List MessageIn
take n [] = []
take zero (m ∷ ms) = []
take (suc n) (m ∷ ms) = m ∷ take n ms

-- `.reverse()`
unfoldable pub reverse : List MessageIn → List MessageIn
reverse [] = []
reverse (m ∷ ms) = reverse ms ++ m ∷ []

unfoldable pub is_acked : List ProcessingAck → String → Bool
is_acked acks id = exists (λ a. a.message_id == id) acks

-- `n` is `maxMessagesPerPrompt`.
unfoldable pub get_pending_messages : ℕ → ℕ → List ProcessingAck → List MessageIn → List MessageIn
get_pending_messages now n acks ms = reverse (
    select (λ m. not (is_acked acks m.id))
      (take n
        (order_by_desc (λ m. m.seq) (select (λ m. status_is m.status pending && is_due now m) ms))))

abbrev pub ack_of : String → ProcessingAck → Bool
ack_of id a = a.message_id == id

-- INSERT OR REPLACE: the message id is the primary key.
unfoldable pub put_ack : ℕ → MessageInStatus → String → List ProcessingAck → List ProcessingAck
put_ack now status id acks =
    delete_where (ack_of id) acks
    ++ record { message_id = id; status = status; status_changed = some now } ∷ []

unfoldable pub put_acks :
    ℕ → MessageInStatus → List String → List ProcessingAck → List ProcessingAck
put_acks now status [] acks = acks
put_acks now status (id ∷ ids) acks = put_acks now status ids (put_ack now status id acks)

unfoldable pub mark_processing : ℕ → List String → List ProcessingAck → List ProcessingAck
mark_processing now ids acks = put_acks now processing ids acks

unfoldable pub mark_completed : ℕ → List String → List ProcessingAck → List ProcessingAck
mark_completed now ids acks = put_acks now completed ids acks

unfoldable pub mark_failed : ℕ → String → List ProcessingAck → List ProcessingAck
mark_failed now id acks = put_ack now failed id acks

unfoldable pub release_processing : List String → List ProcessingAck → List ProcessingAck
release_processing [] acks = acks
release_processing (id ∷ ids) acks = release_processing ids (delete_where (ack_of id) acks)

-- container/agent-runner/src/db/connection.ts, when a container starts
unfoldable pub clear_stale_processing_acks : List ProcessingAck → List ProcessingAck
clear_stale_processing_acks acks = delete_where is_processing acks

unfoldable pub get_message_in : String → List MessageIn → Option MessageIn
get_message_in id ms = find (λ m. m.id == id) ms

abbrev pub unacked : List ProcessingAck → Option MessageIn → Option MessageIn
unacked acks none = none
unacked acks (some m) = if is_acked acks m.id then none else some m

-- `like` is SQL's LIKE with the question's id in the pattern.
unfoldable pub find_question_response :
    (String → Bool) → List ProcessingAck → List MessageIn → Option MessageIn
find_question_response like acks ms =
    unacked acks (find (λ m. status_is m.status pending && like m.content) ms)
