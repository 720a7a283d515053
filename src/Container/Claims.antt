-- ===== src/Container/Claims.antt =====
-- What the container's claims promise, and that the host's sync takes them over.
use multi_user_agent_platfor.Base.{
  ℕ, Bool, true, false, ◌&&◌, ◌||◌, some, List, [], ◌∷◌, map, String, ◌==◌, ◌≡◌, refl, ◌∙◌, arith,
  eq_iff, if◌then◌else◌, exists, exists-append, exists-delete_where, exists-delete_where_other,
  delete_where, In, In-append, In-select, In-order_by_desc, inl, inr, Bool-cases,
}
use multi_user_agent_platfor.Types.{
  MessageIn, MessageInStatus, pending, processing, completed, status_is,
}
use multi_user_agent_platfor.SessionDb.Inbound.{ProcessingAck, is_settled, sync_processing_acks}
use multi_user_agent_platfor.SessionDb.Acks.{synced, settled_in, sync_processing_acks-one_pass}
use multi_user_agent_platfor.Container.Inbox.{
  take, reverse, is_acked, get_pending_messages, ack_of, put_ack, put_acks, mark_processing,
  mark_completed,
}

abbrev pub listed : String → List String → Bool
listed id ids = exists (λ i. i == id) ids

In-take : (n : ℕ) (ms : List MessageIn) (m : MessageIn) → In m (take n ms) → In m ms
unfolding take
In-take n [] m h = h
In-take ℕ.zero (x ∷ ms) m h = absurd h
In-take (ℕ.suc n) (x ∷ ms) m (inl e) = inl e
In-take (ℕ.suc n) (x ∷ ms) m (inr h) = inr (In-take n ms m h)

In-reverse : (ms : List MessageIn) (m : MessageIn) → In m (reverse ms) → In m ms
unfolding reverse
In-reverse [] m h = h
In-reverse (x ∷ ms) m h = elim (In-append (reverse ms) (x ∷ []) m h) [
  | inl l ↦ inr (In-reverse ms m l)
  | inr (inl e) ↦ inl e
  | inr (inr nothing) ↦ absurd nothing
]

-- A message that is offered is pending, due and not acknowledged.
pub In-get_pending_messages :
    (now n : ℕ) (acks : List ProcessingAck) (ms : List MessageIn) (m : MessageIn)
    → In m (get_pending_messages now n acks ms)
    → In m ms × (status_is m.status pending ≡ true) × (is_acked acks m.id ≡ false)
unfolding get_pending_messages
In-get_pending_messages now n acks ms m h =
    let (a, b) = In-select _ _ m (In-reverse _ m h) in
    let (c, d) = In-select _ _ m ((In-order_by_desc _ _ m).0 (In-take n _ m a)) in
    (c, ground arith, ground arith)

-- Putting an acknowledgement decides for its message, and for no other. `q` is a test of a row.
exists-put_ack :
    (now : ℕ) (st : MessageInStatus) (id : String) (acks : List ProcessingAck) (i : String)
    (q : ProcessingAck → Bool)
    → exists (λ a. q a && a.message_id == i) (put_ack now st id acks) ≡ (
        if id == i
        then q (record { message_id = id; status = st; status_changed = some now })
        else exists (λ a. q a && a.message_id == i) acks)
unfolding put_ack exists
exists-put_ack now st id acks i q = elim (Bool-cases (id == i)) [
  | inl it ↦
      exists-append (λ a. q a && a.message_id == i) (delete_where (ack_of id) acks) _
      ∙ ground (
        arith,
        exists-delete_where (ack_of id) (λ a. q a && a.message_id == i) acks
            (λ a h. ground (arith, eq_iff a.message_id i, eq_iff a.message_id id, eq_iff id i)),
      )
  | inr other ↦
      exists-append (λ a. q a && a.message_id == i) (delete_where (ack_of id) acks) _
      ∙ ground (
        arith,
        exists-delete_where_other (ack_of id) (λ a. q a && a.message_id == i) acks
            (λ a h. ground (
              arith,
              Bool-cases (a.message_id == id),
              eq_iff a.message_id i,
              eq_iff a.message_id id,
              eq_iff id i,
            )),
      )
]

-- Where the new rows pass the test, so do the listed messages, and the others as before.
exists-put_acks :
    (now : ℕ) (st : MessageInStatus) (ids : List String) (acks : List ProcessingAck) (i : String)
    (q : ProcessingAck → Bool)
    → ((id : String)
        → q (record { message_id = id; status = st; status_changed = some now }) ≡ true)
    → exists (λ a. q a && a.message_id == i) (put_acks now st ids acks)
      ≡ (listed i ids || exists (λ a. q a && a.message_id == i) acks)
unfolding put_acks exists
exists-put_acks now st [] acks i q h = refl
exists-put_acks now st (id ∷ ids) acks i q h =
    exists-put_acks now st ids (put_ack now st id acks) i q h
    ∙ ground (arith, exists-put_ack now st id acks i q, h id)

-- A message that is claimed is not offered again, whatever the host writes and as long as the
-- claims stand.
get_pending_messages-spares_claimed :
    (now then_ n : ℕ) (ids : List String) (acks : List ProcessingAck) (ms : List MessageIn)
    (m : MessageIn)
    → In m (get_pending_messages then_ n (mark_processing now ids acks) ms)
    → listed m.id ids ≡ false
unfolding mark_processing is_acked
get_pending_messages-spares_claimed now then_ n ids acks ms m h = ground (
  arith,
  In-get_pending_messages then_ n (mark_processing now ids acks) ms m h,
  exists-put_acks now processing ids acks m.id (λ a. true) (λ id. refl),
)

In-map :
    (f : MessageIn → MessageIn) (ms : List MessageIn) (m : MessageIn)
    → In m (map f ms)
    → (x : MessageIn) × (m ≡ f x)
In-map f [] m h = absurd h
In-map f (x ∷ ms) m (inl e) = (x, e)
In-map f (x ∷ ms) m (inr h) = In-map f ms m h

synced-pending :
    (acks : List ProcessingAck) (x : MessageIn)
    → status_is (synced acks x).status pending ≡ true
    → (settled_in acks x ≡ false) × ((synced acks x).id ≡ x.id)
synced-pending acks x h = elim (Bool-cases (settled_in acks x)) [
  | inl done ↦ let wrong = rw done at h in cc
  | inr open_ ↦ (open_, rw open_ refl)
]

-- Once the host has synced, a message that the container completed is never offered again, even
-- where the acknowledgements are lost.
pub get_pending_messages-spares_completed :
    (now then_ n : ℕ) (ids : List String) (acks acks' : List ProcessingAck) (ms : List MessageIn)
    (m : MessageIn)
    → In m
        (get_pending_messages then_ n acks' (sync_processing_acks (mark_completed now ids acks) ms))
    → listed m.id ids ≡ false
unfolding mark_completed
get_pending_messages-spares_completed now then_ n ids acks acks' ms m h =
    let done = mark_completed now ids acks in
    let (there, waiting, free) =
      In-get_pending_messages then_ n acks' (sync_processing_acks done ms) m h in
    let (x, e) = In-map (synced done) ms m (rw (sync_processing_acks-one_pass done ms) at there) in
    let (unsettled, same) = synced-pending done x (rw e at waiting) in
    rw (e, same) ground
      (arith, unsettled, exists-put_acks now completed ids acks x.id is_settled (λ id. refl))
