-- ===== src/SessionDb/Sequence.antt =====
-- What the sequence numbers and the keys of messages_in promise (src/db/session-db.ts).
use multi_user_agent_platfor.Base.{
  ◌%◌, ◌≤◌, ◌<◌, false, List, [], ◌∷◌, ◌++◌, ◌==◌, ◌≡◌, refl, arith, exists, In, ok, inl, inr,
}
use multi_user_agent_platfor.Types.{MessageIn}
use multi_user_agent_platfor.SessionDb.Inbound.{
  max_seq, next_even_seq, NewMessage, message_row, insert_row, insert_message,
}

-- The host's next number is even and above every number that the table holds.
pub next_even_seq-even : (ms : List MessageIn) → next_even_seq ms % 2 ≡ 0
unfolding next_even_seq
next_even_seq-even ms = ground arith

max_seq-bounds : (ms : List MessageIn) (m : MessageIn) → In m ms → m.seq ≤ max_seq ms
unfolding max_seq
max_seq-bounds [] m h = absurd h
max_seq-bounds (x ∷ ms) m (inl e) = rw e (ground arith)
max_seq-bounds (x ∷ ms) m (inr h) = ground (arith, max_seq-bounds ms m h)

next_even_seq-above : (ms : List MessageIn) → max_seq ms < next_even_seq ms
unfolding next_even_seq
next_even_seq-above ms = ground arith

-- An insertion that succeeds appends one row with the given id, which no row had before, and a
-- number that is even and greater than every number before it.
pub insert_message-appends :
    (m : NewMessage) (ms ms' : List MessageIn)
    → insert_message m ms ≡ ok ms'
    → (row : MessageIn) × (ms' ≡ ms ++ row ∷ [])
      × (row.id ≡ m.id)
      × (row.seq % 2 ≡ 0)
      × ((x : MessageIn) → In x ms → x.seq < row.seq)
      × (exists (λ x. x.id == m.id) ms ≡ false)
unfolding insert_message insert_row
insert_message-appends m ms ms' e = (
  message_row m (next_even_seq ms),
  ground arith,
  refl,
  next_even_seq-even ms,
  (λ x h. ground (arith, max_seq-bounds ms x h, next_even_seq-above ms)),
  ground arith,
)
