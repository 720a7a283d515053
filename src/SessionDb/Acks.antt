-- ===== src/SessionDb/Acks.antt =====
-- `syncProcessingAcks` of src/db/session-db.ts against a description by one pass over the table.
use multi_user_agent_platfor.Base.{
  Bool, true, not, ◌&&◌, List, [], ◌∷◌, map, String, ◌==◌, ◌≡◌, refl, ap, ◌∙◌, arith, eq_iff,
  if◌then◌else◌, exists, select, Bool-cases, inl, inr, update_where,
}
use multi_user_agent_platfor.Types.{
  MessageIn, MessageInStatus, pending, processing, completed, failed, paused, status_is,
}
use multi_user_agent_platfor.SessionDb.Inbound.{
  ProcessingAck, is_settled, complete_one, complete_all, sync_processing_acks,
}

-- The container has settled the message.
abbrev pub settled_in : List ProcessingAck → MessageIn → Bool
settled_in acks m = exists (λ a. is_settled a && a.message_id == m.id) acks

abbrev pub synced : List ProcessingAck → MessageIn → MessageIn
synced acks m = if settled_in acks m then record m { status = completed } else m

abbrev named_in : List ProcessingAck → MessageIn → Bool
named_in acks m = exists (λ a. a.message_id == m.id) acks

abbrev marked : List ProcessingAck → MessageIn → MessageIn
marked acks m = if named_in acks m then record m { status = completed } else m

completed_of : (s : MessageInStatus) → status_is s completed ≡ true → s ≡ completed
completed_of completed h = refl
completed_of pending h = cc
completed_of processing h = cc
completed_of failed h = cc
completed_of paused h = cc

-- Where the status is `completed` already, setting it changes nothing.
one-marked :
    (id : String) (m : MessageIn)
    → (if m.id == id && not (status_is m.status completed)
        then record m { status = completed }
        else m)
      ≡ (if m.id == id then record m { status = completed } else m)
one-marked id m = elim (Bool-cases (status_is m.status completed)) [
  | inr waiting ↦ ground arith
  | inl done ↦ rw (completed_of m.status done) ground arith
]

step-marked :
    (a : ProcessingAck) (acks : List ProcessingAck) (m : MessageIn)
    → marked acks (if m.id == a.message_id then record m { status = completed } else m)
      ≡ marked (a ∷ acks) m
unfolding exists
step-marked a acks m = ground (arith, eq_iff m.id a.message_id, eq_iff a.message_id m.id)

map-complete_one :
    (a : ProcessingAck) (acks : List ProcessingAck) (ms : List MessageIn)
    → map (marked acks) (complete_one a.message_id ms) ≡ map (marked (a ∷ acks)) ms
unfolding complete_one update_where
map-complete_one a acks [] = refl
map-complete_one a acks (m ∷ ms) =
    ap2 (ap (marked acks) (one-marked a.message_id m) ∙ step-marked a acks m)
      (map-complete_one a acks ms)
  where
    ap2 : {x y : MessageIn} {xs ys : List MessageIn} → x ≡ y → xs ≡ ys → x ∷ xs ≡ y ∷ ys
    ap2 p q = cc

map-marked_nil : (ms : List MessageIn) → ms ≡ map (marked []) ms
unfolding exists
map-marked_nil [] = refl
map-marked_nil (m ∷ ms) = ap (λ t. m ∷ t) (map-marked_nil ms)

complete_all-marks :
    (acks : List ProcessingAck) (ms : List MessageIn) → complete_all acks ms ≡ map (marked acks) ms
unfolding complete_all
complete_all-marks [] ms = map-marked_nil ms
complete_all-marks (a ∷ acks) ms =
    complete_all-marks acks (complete_one a.message_id ms) ∙ map-complete_one a acks ms

named-settled :
    (acks : List ProcessingAck) (m : MessageIn)
    → named_in (select is_settled acks) m ≡ settled_in acks m
unfolding select exists
named-settled [] m = refl
named-settled (a ∷ acks) m = ground (arith, named-settled acks m)

map-synced :
    (acks : List ProcessingAck) (ms : List MessageIn)
    → map (marked (select is_settled acks)) ms ≡ map (synced acks) ms
map-synced acks [] = refl
map-synced acks (m ∷ ms) =
    rw (named-settled acks m) (ap (λ t. synced acks m ∷ t) (map-synced acks ms))

-- The sync of the container's acknowledgements, one UPDATE for each, marks as completed exactly the
-- messages that an acknowledgement settles, and leaves every other row as it is.
pub sync_processing_acks-one_pass :
    (acks : List ProcessingAck) (ms : List MessageIn)
    → sync_processing_acks acks ms ≡ map (synced acks) ms
unfolding sync_processing_acks
sync_processing_acks-one_pass acks ms =
    complete_all-marks (select is_settled acks) ms ∙ map-synced acks ms
