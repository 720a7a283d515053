-- ===== src/HostSweep/Retry.antt =====
-- `resetStuckProcessingRows` of src/host-sweep.ts: what happens to messages of a container that died.
use multi_user_agent_platfor.Base.{
  ℕ, ◌*◌, ◌/◌, ◌^◌, Bool, false, Option, none, some, List, [], ◌∷◌, String, if◌then◌else◌, ltb, leb,
}
use multi_user_agent_platfor.Types.{MessageIn, pending}
use multi_user_agent_platfor.SessionDb.Inbound.{
  ProcessingAck, get_message_for_retry, mark_message_failed, retry_with_backoff,
  get_processing_claims, delete_orphan_processing_claims,
}

abbrev pub max_tries : ℕ
max_tries = 5

abbrev pub backoff_base_ms : ℕ
backoff_base_ms = 5000

-- `Math.floor(BACKOFF_BASE_MS * 2 ** tries / 1000)`
unfoldable pub backoff_sec : ℕ → ℕ
backoff_sec tries = backoff_base_ms * 2 ^ tries / 1000

-- A retry is scheduled for later already.
abbrev pub is_later : ℕ → Option ℕ → Bool
is_later now none = false
is_later now (some t) = ltb now t

unfoldable pub reset_found : ℕ → Option MessageIn → List MessageIn → List MessageIn
reset_found now none ms = ms
reset_found now (some msg) ms =
    if is_later now msg.process_after
    then ms
    else if leb max_tries msg.tries
    then mark_message_failed msg.id ms
    else retry_with_backoff now msg.id (backoff_sec msg.tries) ms

unfoldable pub reset_one : ℕ → String → List MessageIn → List MessageIn
reset_one now id ms = reset_found now (get_message_for_retry id pending ms) ms

unfoldable pub reset_claims : ℕ → List ProcessingAck → List MessageIn → List MessageIn
reset_claims now [] ms = ms
reset_claims now (c ∷ claims) ms = reset_claims now claims (reset_one now c.message_id ms)

-- The two databases of a session, as far as the sweep writes them.
pub record SessionFiles : Type 0 where
  pub messages : List MessageIn
  pub acks : List ProcessingAck

-- `writable` is whether outbound.db could be opened for writing; a failure is logged only.
unfoldable pub reset_stuck_processing_rows : ℕ → Bool → SessionFiles → SessionFiles
reset_stuck_processing_rows now writable f = record {
  messages = reset_claims now (get_processing_claims f.acks) f.messages;
  acks = if writable then delete_orphan_processing_claims f.acks else f.acks;
}
