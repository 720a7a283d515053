-- ===== src/SessionDb/Inbound.antt =====
-- src/db/session-db.ts: the messages_in table of one session's inbound.db.
-- Sequence numbers of the host are even; the container takes the odd ones.
use multi_user_agent_platfor.Base.{
  ℕ, ◌+◌, ◌-◌, ◌*◌, ◌%◌, max, Bool, true, not, ◌&&◌, ◌||◌, Option, none, some, List, [], ◌∷◌, ◌++◌,
  String, ◌==◌, if◌then◌else◌, ltb, leb, length, find, select, exists, update_where, delete_where,
  Result, ok, err, constraint,
}
use multi_user_agent_platfor.Types.{
  MessageIn, MessageInKind, MessageInStatus, pending, processing, completed, failed, status_is,
}

-- SELECT COALESCE(MAX(seq), 0)
unfoldable pub max_seq : List MessageIn → ℕ
max_seq [] = 0
max_seq (m ∷ ms) = max m.seq (max_seq ms)

unfoldable pub next_even_seq : List MessageIn → ℕ
next_even_seq ms = if ltb (max_seq ms) 2 then 2 else max_seq ms + 2 - max_seq ms % 2

-- What `insertMessage` is given.
pub record NewMessage : Type 0 where
  pub id : String
  pub kind : MessageInKind
  pub timestamp : ℕ
  pub platform_id : Option String
  pub channel_type : Option String
  pub thread_id : Option String
  pub content : String
  pub process_after : Option ℕ
  pub recurrence : Option String
  pub trigger : Bool
  pub source_session_id : Option String
  pub origin_user_id : Option String

abbrev pub message_row : NewMessage → ℕ → MessageIn
message_row m seq = record {
  id = m.id;
  seq = seq;
  kind = m.kind;
  timestamp = m.timestamp;
  status = pending;
  process_after = m.process_after;
  recurrence = m.recurrence;
  series_id = some m.id;
  tries = 0;
  trigger = m.trigger;
  platform_id = m.platform_id;
  channel_type = m.channel_type;
  thread_id = m.thread_id;
  content = m.content;
  source_session_id = m.source_session_id;
  origin_user_id = m.origin_user_id;
}

-- INSERT INTO messages_in: `id` is the primary key.
unfoldable pub insert_row : MessageIn → List MessageIn → Result (List MessageIn)
insert_row row ms =
    if exists (λ m. m.id == row.id) ms then err (constraint "messages_in") else ok (ms ++ row ∷ [])

unfoldable pub insert_message : NewMessage → List MessageIn → Result (List MessageIn)
insert_message m ms = insert_row (message_row m (next_even_seq ms)) ms

-- The message is due: `process_after` is null or past.
abbrev pub is_due : ℕ → MessageIn → Bool
is_due now m = elim m.process_after [ none ↦ true | some t ↦ leb t now ]

abbrev pub wakes : ℕ → MessageIn → Bool
wakes now m = status_is m.status pending && m.trigger && is_due now m

unfoldable pub count_due_messages : ℕ → List MessageIn → ℕ
count_due_messages now ms = length (select (wakes now) ms)

unfoldable pub mark_message_failed : String → List MessageIn → List MessageIn
mark_message_failed id = update_where (λ m. m.id == id) (λ m. record m { status = failed })

unfoldable pub retry_with_backoff : ℕ → String → ℕ → List MessageIn → List MessageIn
retry_with_backoff now id backoff_sec =
    update_where (λ m. m.id == id)
      (λ m. record m { tries = m.tries + 1; process_after = some (now + backoff_sec * 1000) })

unfoldable pub get_message_for_retry : String → MessageInStatus → List MessageIn → Option MessageIn
get_message_for_retry id status = find (λ m. m.id == id && status_is m.status status)

-- A row of processing_ack, which the container writes in outbound.db.
pub record ProcessingAck : Type 0 where
  pub message_id : String
  pub status : MessageInStatus
  -- `none` where `Date.parse` gives NaN
  pub status_changed : Option ℕ

abbrev pub is_processing : ProcessingAck → Bool
is_processing a = status_is a.status processing

-- status IN ('completed', 'failed')
abbrev pub is_settled : ProcessingAck → Bool
is_settled a = status_is a.status completed || status_is a.status failed

unfoldable pub complete_one : String → List MessageIn → List MessageIn
complete_one id =
    update_where (λ m. m.id == id && not (status_is m.status completed))
      (λ m. record m { status = completed })

unfoldable pub complete_all : List ProcessingAck → List MessageIn → List MessageIn
complete_all [] ms = ms
complete_all (a ∷ acks) ms = complete_all acks (complete_one a.message_id ms)

unfoldable pub sync_processing_acks : List ProcessingAck → List MessageIn → List MessageIn
sync_processing_acks acks ms = complete_all (select is_settled acks) ms

unfoldable pub get_processing_claims : List ProcessingAck → List ProcessingAck
get_processing_claims = select is_processing

unfoldable pub delete_orphan_processing_claims : List ProcessingAck → List ProcessingAck
delete_orphan_processing_claims = delete_where is_processing
