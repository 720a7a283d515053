-- ===== src/Container/Outbox.antt =====
-- container/agent-runner/src/db/messages-out.ts: the container's rows of messages_out, and the numbers by
-- which the agent names messages.
use multi_user_agent_platfor.Base.{
  ℕ, ◌+◌, ◌%◌, max, Bool, Option, none, some, List, [], ◌∷◌, ◌++◌, String, ◌==◌, if◌then◌else◌,
  num_eq, find, exists, Result, ok, err, constraint,
}
use multi_user_agent_platfor.Types.{MessageIn, MessageOut}
use multi_user_agent_platfor.SessionDb.Inbound.{max_seq}

-- A row of messages_out with its number.
pub record NumberedOut : Type 0 where
  pub seq : ℕ
  pub message : MessageOut

-- What the host stored of a delivered message.
pub record DeliveredId : Type 0 where
  pub message_out_id : String
  pub platform_message_id : Option String

unfoldable pub max_out : List NumberedOut → ℕ
max_out [] = 0
max_out (m ∷ ms) = max m.seq (max_out ms)

-- The next odd number above both tables.
unfoldable pub next_odd_seq : List NumberedOut → List MessageIn → ℕ
next_odd_seq outs ins =
    let m = max (max_out outs) (max_seq ins) in if num_eq (m % 2) 0 then m + 1 else m + 2

abbrev pub has_out : String → List NumberedOut → Bool
has_out id outs = exists (λ o. o.message.id == id) outs

-- The rows afterwards and the number of the new one.
unfoldable pub write_message_out :
    MessageOut → List NumberedOut → List MessageIn → Result (List NumberedOut × ℕ)
write_message_out msg outs ins =
    let seq = next_odd_seq outs ins in
    if has_out msg.id outs
    then err (constraint "messages_out")
    else ok (outs ++ record { seq = seq; message = msg } ∷ [], seq)

abbrev pub platform_id_or : String → Option DeliveredId → String
platform_id_or id none = id
platform_id_or id (some d) = elim d.platform_message_id [
  | none ↦ id
  | some p ↦ if p == "" then id else p
]

abbrev pub id_of_out : List DeliveredId → Option NumberedOut → Option String
id_of_out delivered none = none
id_of_out delivered (some o) =
    some (platform_id_or o.message.id (find (λ d. d.message_out_id == o.message.id) delivered))

abbrev pub id_of_in : Option MessageIn → Option String → Option String
id_of_in none other = other
id_of_in (some m) other = some m.id

-- The inbound table is asked first.
unfoldable pub get_message_id_by_seq :
    ℕ → List MessageIn → List NumberedOut → List DeliveredId → Option String
get_message_id_by_seq seq ins outs delivered =
    id_of_in (find (λ m. num_eq m.seq seq) ins)
      (id_of_out delivered (find (λ o. num_eq o.seq seq) outs))
