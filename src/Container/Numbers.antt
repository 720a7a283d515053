-- ===== src/Container/Numbers.antt =====
-- The numbers of messages: the host's are even, the container's odd.
use multi_user_agent_platfor.Base.{
  ℕ, ◌%◌, ◌≢◌, List, [], ◌∷◌, ◌++◌, ◌≡◌, sym, ap, arith, All, All-append, All-In, In, inl, inr,
  Result, ok, err, Bool-cases, Bool, String, update_where,
}
use multi_user_agent_platfor.Types.{MessageIn, MessageOut}
use multi_user_agent_platfor.SessionDb.Inbound.{NewMessage, insert_row, insert_message}
use multi_user_agent_platfor.Scheduling.Tasks.{NewTask, insert_task, insert_recurrence}
use multi_user_agent_platfor.SessionDb.Sequence.{next_even_seq-even, insert_message-appends}
use multi_user_agent_platfor.Container.Outbox.{
  NumberedOut, next_odd_seq, has_out, write_message_out,
}

-- The two tables have no number in common: one has even numbers, the other odd ones.
pub record Apart (outs : List NumberedOut) (ins : List MessageIn) : Type 0 where
  pub odd : All (λ o. o.seq % 2 ≡ 1) outs
  pub even : All (λ m. m.seq % 2 ≡ 0) ins

next_odd_seq-odd : (outs : List NumberedOut) (ins : List MessageIn) → next_odd_seq outs ins % 2 ≡ 1
unfolding next_odd_seq
next_odd_seq-odd outs ins = ground arith

-- What either side may do to the two tables: the container writes a message; the host inserts a
-- message, a task or a task's next occurrence, or updates rows without touching their numbers. The
-- host's own write to messages_out, `writeOutboundDirect`, is not among them.
pub data Write
    : List NumberedOut → List MessageIn → List NumberedOut → List MessageIn → Type 0 where
  by_container :
      (msg : MessageOut) (outs outs' : List NumberedOut) (ins : List MessageIn) (seq : ℕ)
      → write_message_out msg outs ins ≡ ok (outs', seq)
      → Write outs ins outs' ins
  by_host :
      (m : NewMessage) (outs : List NumberedOut) (ins ins' : List MessageIn)
      → insert_message m ins ≡ ok ins'
      → Write outs ins outs ins'
  by_task :
      (now : ℕ) (t : NewTask) (outs : List NumberedOut) (ins ins' : List MessageIn)
      → insert_task now t ins ≡ ok ins'
      → Write outs ins outs ins'
  by_recurrence :
      (now next_run : ℕ) (m : MessageIn) (id : String) (outs : List NumberedOut)
      (ins ins' : List MessageIn)
      → insert_recurrence now m id next_run ins ≡ ok ins'
      → Write outs ins outs ins'
  by_update :
      (p : MessageIn → Bool) (f : MessageIn → MessageIn) (outs : List NumberedOut)
      (ins : List MessageIn)
      → ((m : MessageIn) → (f m).seq ≡ m.seq)
      → Write outs ins outs (update_where p f ins)

pub write_message_out-appends :
    (msg : MessageOut) (outs outs' : List NumberedOut) (ins : List MessageIn) (seq : ℕ)
    → write_message_out msg outs ins ≡ ok (outs', seq)
    → outs' ≡ outs ++ record { seq = next_odd_seq outs ins; message = msg } ∷ []
unfolding write_message_out
write_message_out-appends msg outs outs' ins seq e =
    let rows : Result (List NumberedOut × ℕ) → List NumberedOut =
      λ r. elim r [ err x ↦ outs' | ok p ↦ p.0 ] in
    elim (Bool-cases (has_out msg.id outs)) [
      | inl taken ↦ let wrong = rw taken at e in cc
      | inr free ↦ sym (ap rows (rw free at e))
    ]

insert_row-even :
    (row : MessageIn) (ins ins' : List MessageIn)
    → insert_row row ins ≡ ok ins'
    → row.seq % 2 ≡ 0
    → All (λ m. m.seq % 2 ≡ 0) ins
    → All (λ m. m.seq % 2 ≡ 0) ins'
unfolding insert_row
insert_row-even row ins ins' e even h =
    let appended : ins' ≡ ins ++ row ∷ [] = ground arith in
    rw appended (All-append _ ins _ h (even, tt))

update-even :
    (p : MessageIn → Bool) (f : MessageIn → MessageIn) (ins : List MessageIn)
    → ((m : MessageIn) → (f m).seq ≡ m.seq)
    → All (λ m. m.seq % 2 ≡ 0) ins
    → All (λ m. m.seq % 2 ≡ 0) (update_where p f ins)
unfolding update_where
update-even p f [] keeps h = tt
update-even p f (m ∷ ms) keeps (h, hs) = elim (Bool-cases (p m)) [
  | inl hit ↦ rw hit (rw (keeps m) h, update-even p f ms keeps hs)
  | inr miss ↦ rw miss (h, update-even p f ms keeps hs)
]

Apart-Write :
    (outs outs' : List NumberedOut) (ins ins' : List MessageIn)
    → Write outs ins outs' ins'
    → Apart outs ins
    → Apart outs' ins'
unfolding insert_task insert_recurrence
Apart-Write a b c d (by_container msg outs outs' ins seq e) h = record {
  odd =
      rw (write_message_out-appends msg outs outs' ins seq e)
        (All-append _ outs _ h.odd (next_odd_seq-odd outs ins, tt));
  even = h.even;
}
Apart-Write a b c d (by_host m outs ins ins' e) h =
    let (row, appended, i, even, above, new) = insert_message-appends m ins ins' e in
    record { odd = h.odd; even = rw appended (All-append _ ins _ h.even (even, tt)) }
Apart-Write a b c d (by_task now t outs ins ins' e) h = record {
  odd = h.odd;
  even = insert_row-even _ ins ins' e (next_even_seq-even ins) h.even;
}
Apart-Write a b c d (by_recurrence now next_run m id outs ins ins' e) h = record {
  odd = h.odd;
  even = insert_row-even _ ins ins' e (next_even_seq-even ins) h.even;
}
Apart-Write a b c d (by_update p f outs ins keeps) h = record {
  odd = h.odd;
  even = update-even p f ins keeps h.even;
}

pub data Writes : List NumberedOut → List MessageIn → Type 0 where
  empty : Writes [] []
  and_write :
      (outs outs' : List NumberedOut) (ins ins' : List MessageIn)
      → Writes outs ins
      → Write outs ins outs' ins'
      → Writes outs' ins'

Writes-Apart : (outs : List NumberedOut) (ins : List MessageIn) → Writes outs ins → Apart outs ins
Writes-Apart a b empty = record { odd = tt; even = tt }
Writes-Apart a b (and_write outs outs' ins ins' w x) =
    Apart-Write outs outs' ins ins' x (Writes-Apart outs ins w)

-- Whatever the host inserts and updates in messages_in and the container writes, in whatever order, no row of messages_in and
-- no row of messages_out have one number.
pub Writes-apart :
    (outs : List NumberedOut) (ins : List MessageIn) (o : NumberedOut) (m : MessageIn)
    → Writes outs ins
    → In o outs
    → In m ins
    → o.seq ≢ m.seq
Writes-apart outs ins o m w i j e =
    let h = Writes-Apart outs ins w in
    let odd = All-In (λ x. x.seq % 2 ≡ 1) outs o h.odd i in
    let even = All-In (λ x. x.seq % 2 ≡ 0) ins m h.even j in ground arith
