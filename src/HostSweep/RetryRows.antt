-- ===== src/HostSweep/RetryRows.antt =====
-- `resetStuckProcessingRows` of src/host-sweep.ts, row by row.
use multi_user_agent_platfor.Base.{
  ℕ, zero, suc, ◌+◌, ◌*◌, ◌^◌, ◌≤◌, Bool, true, false, not, ◌&&◌, Option, none, some, List, [], ◌∷◌,
  map, String, ◌==◌, ◌≡◌, inl, inr, refl, sym, ap, subst, eq_refl, ◌∙◌, arith, eq_iff,
  if◌then◌else◌, leb, exists, find, find-eq-some, update_where, Bool-cases,
}
use multi_user_agent_platfor.Types.{MessageIn, pending, failed, status_is}
use multi_user_agent_platfor.SessionDb.Inbound.{
  ProcessingAck, get_message_for_retry, mark_message_failed, retry_with_backoff,
}
use multi_user_agent_platfor.HostSweep.Retry.{
  max_tries, backoff_sec, is_later, reset_found, reset_one, reset_claims,
}

-- The ids are keys: no row has the id of a later one.
unfoldable pub UniqueIds : List MessageIn → Type 0
UniqueIds [] = Unit
UniqueIds (m ∷ ms) = (exists (λ x. x.id == m.id) ms ≡ false) × UniqueIds ms

-- What becomes of a row that is reset.
abbrev pub retried : ℕ → MessageIn → MessageIn
retried now m =
    if leb max_tries m.tries
    then record m { status = failed }
    else record m { tries = m.tries + 1; process_after = some (now + backoff_sec m.tries * 1000) }

abbrev pub wants_reset : ℕ → String → MessageIn → Bool
wants_reset now id m =
    m.id == id && status_is m.status pending && not (is_later now m.process_after)

abbrev pub reset_row : ℕ → String → MessageIn → MessageIn
reset_row now id m = if wants_reset now id m then retried now m else m

-- Rows without the id stay.
map-other :
    (now : ℕ) (id : String) (ms : List MessageIn)
    → exists (λ x. x.id == id) ms ≡ false
    → ms ≡ map (reset_row now id) ms
unfolding exists
map-other now id [] h = refl
map-other now id (m ∷ ms) h = ground (arith, map-other now id ms)

update-other :
    (id : String) (f : MessageIn → MessageIn) (ms : List MessageIn)
    → exists (λ x. x.id == id) ms ≡ false
    → update_where (λ x. x.id == id) f ms ≡ ms
unfolding exists update_where
update-other id f [] h = refl
update-other id f (m ∷ ms) h = ground (arith, update-other id f ms)

find-other :
    (id : String) (ms : List MessageIn)
    → exists (λ x. x.id == id) ms ≡ false
    → find (λ x. x.id == id && status_is x.status pending) ms ≡ none
unfolding exists find
find-other id [] h = refl
find-other id (m ∷ ms) h = ground (arith, find-other id ms)

reset_found-skip :
    (now : ℕ) (r : Option MessageIn) (m : MessageIn) (ms : List MessageIn)
    → ((msg : MessageIn) → r ≡ some msg → (m.id == msg.id) ≡ false)
    → reset_found now r (m ∷ ms) ≡ m ∷ reset_found now r ms
unfolding reset_found mark_message_failed retry_with_backoff update_where
reset_found-skip now none m ms h = refl
reset_found-skip now (some msg) m ms h = ground (arith, h msg refl)

reset_found-head :
    (now : ℕ) (m : MessageIn) (ms : List MessageIn)
    → exists (λ x. x.id == m.id) ms ≡ false
    → reset_found now (some m) (m ∷ ms)
      ≡ (if not (is_later now m.process_after) then retried now m else m) ∷ ms
unfolding reset_found mark_message_failed retry_with_backoff update_where
reset_found-head now m ms h = ground (
  arith,
  eq_refl m.id,
  update-other m.id (λ x. record x { status = failed }) ms h,
  update-other m.id
      (λ x. record x {
        tries = x.tries + 1;
        process_after = some (now + backoff_sec m.tries * 1000);
      })
      ms h,
)

reset_one-same :
    (now : ℕ) (m : MessageIn) (ms : List MessageIn)
    → exists (λ x. x.id == m.id) ms ≡ false
    → reset_one now m.id (m ∷ ms) ≡ map (reset_row now m.id) (m ∷ ms)
unfolding reset_one get_message_for_retry find reset_found
reset_one-same now m ms fresh = elim (Bool-cases (status_is m.status pending)) [
  | inl is_pending ↦
      rw (eq_refl m.id, is_pending)
        (reset_found-head now m ms fresh
          ∙ ap (λ t. (if not (is_later now m.process_after) then retried now m else m) ∷ t)
              (map-other now m.id ms fresh))
  | inr other ↦
      rw (eq_refl m.id, other, find-other m.id ms fresh)
        (ap (λ t. m ∷ t) (map-other now m.id ms fresh))
]

-- With keyed rows the lookup and the update of one claim are one pass over the table.
reset_one-rows :
    (now : ℕ) (id : String) (ms : List MessageIn)
    → UniqueIds ms
    → reset_one now id ms ≡ map (reset_row now id) ms
unfolding reset_one get_message_for_retry find UniqueIds reset_found
reset_one-rows now id [] u = refl
reset_one-rows now id (m ∷ ms) (fresh, u) = elim (Bool-cases (m.id == id)) [
  | inr other ↦
      let r = get_message_for_retry id pending ms in
      let skip : reset_found now r (m ∷ ms) ≡ m ∷ reset_found now r ms =
        reset_found-skip now r m ms (λ msg f. ground (
          arith,
          eq_iff m.id id,
          eq_iff msg.id id,
          eq_iff m.id msg.id,
          find-eq-some (λ x. x.id == id && status_is x.status pending) ms f,
        )) in
      rw other (skip ∙ ap (λ t. m ∷ t) (reset_one-rows now id ms u))
  | inl same ↦
      let e : m.id ≡ id = ground (arith, eq_iff m.id id) in
      subst (λ i. reset_one now i (m ∷ ms) ≡ map (reset_row now i) (m ∷ ms)) e
        (reset_one-same now m ms fresh)
]

power-positive : (t : ℕ) → 1 ≤ 2 ^ t
power-positive zero = ground arith
power-positive (suc t) = ground (arith, power-positive t)

backoff_sec-positive : (t : ℕ) → 1 ≤ backoff_sec t
unfolding backoff_sec
backoff_sec-positive t = let p = power-positive t in ground arith

-- A row that was reset is not reset again at this moment.
retried-settled :
    (now : ℕ) (m : MessageIn)
    → (status_is (retried now m).status pending && not (is_later now (retried now m).process_after))
      ≡ false
retried-settled now m = ground (arith, backoff_sec-positive m.tries)

retried-id : (now : ℕ) (m : MessageIn) → (retried now m).id ≡ m.id
retried-id now m = ground arith

reset_row-id : (now : ℕ) (id : String) (m : MessageIn) → (reset_row now id m).id ≡ m.id
reset_row-id now id m = ground arith

exists-reset :
    (now : ℕ) (id i : String) (ms : List MessageIn)
    → exists (λ x. x.id == i) (map (reset_row now id) ms) ≡ exists (λ x. x.id == i) ms
unfolding exists
exists-reset now id i [] = refl
exists-reset now id i (m ∷ ms) = rw (reset_row-id now id m, exists-reset now id i ms) refl

UniqueIds-reset :
    (now : ℕ) (id : String) (ms : List MessageIn)
    → UniqueIds ms
    → UniqueIds (map (reset_row now id) ms)
unfolding UniqueIds
UniqueIds-reset now id [] u = tt
UniqueIds-reset now id (m ∷ ms) (f, u) =
    (rw (reset_row-id now id m) (exists-reset now id m.id ms ∙ f), UniqueIds-reset now id ms u)

-- The container that died had claimed the message.
abbrev pub claimed_in : List ProcessingAck → MessageIn → Bool
claimed_in claims m = exists (λ c. c.message_id == m.id) claims

-- What the reset makes of a row: where a dead container had claimed it, it is pending, and no retry
-- lies ahead, it is failed or rescheduled.
abbrev pub after_reset : ℕ → List ProcessingAck → MessageIn → MessageIn
after_reset now claims m =
    if claimed_in claims m && status_is m.status pending && not (is_later now m.process_after)
    then retried now m
    else m

after_reset-settled :
    (now : ℕ) (claims : List ProcessingAck) (m : MessageIn)
    → (status_is m.status pending && not (is_later now m.process_after)) ≡ false
    → after_reset now claims m ≡ m
after_reset-settled now claims m h = ground arith

after_reset-claimed :
    (now : ℕ) (claims : List ProcessingAck) (m : MessageIn)
    → claimed_in claims m ≡ true
    → (status_is m.status pending && not (is_later now m.process_after)) ≡ true
    → after_reset now claims m ≡ retried now m
after_reset-claimed now claims m c h = rw (c, h) refl

reset_row-settled :
    (now : ℕ) (id : String) (m : MessageIn)
    → (status_is m.status pending && not (is_later now m.process_after)) ≡ false
    → reset_row now id m ≡ m
reset_row-settled now id m h = ground arith

reset_row-due :
    (now : ℕ) (id : String) (m : MessageIn)
    → (m.id == id) ≡ true
    → (status_is m.status pending && not (is_later now m.process_after)) ≡ true
    → reset_row now id m ≡ retried now m
reset_row-due now id m same due = rw (same, due) refl

reset_row-other :
    (now : ℕ) (id : String) (m : MessageIn) → (m.id == id) ≡ false → reset_row now id m ≡ m
reset_row-other now id m other = rw other refl

after_reset-other :
    (now : ℕ) (c : ProcessingAck) (claims : List ProcessingAck) (m : MessageIn)
    → (c.message_id == m.id) ≡ false
    → after_reset now claims m ≡ after_reset now (c ∷ claims) m
unfolding exists
after_reset-other now c claims m other = rw other refl

-- The row of a claim's own step, and then the rest of the claims.
after_reset-step :
    (now : ℕ) (c : ProcessingAck) (claims : List ProcessingAck) (m : MessageIn)
    → after_reset now claims (reset_row now c.message_id m) ≡ after_reset now (c ∷ claims) m
unfolding exists
after_reset-step now c claims m =
    elim (Bool-cases (status_is m.status pending && not (is_later now m.process_after))) [
      | inr settled ↦
          ap (after_reset now claims) (reset_row-settled now c.message_id m settled)
          ∙ after_reset-settled now claims m settled
          ∙ sym (after_reset-settled now (c ∷ claims) m settled)
      | inl due ↦ elim (Bool-cases (m.id == c.message_id)) [
        | inl same ↦
            ap (after_reset now claims) (reset_row-due now c.message_id m same due)
            ∙ after_reset-settled now claims (retried now m) (retried-settled now m)
            ∙ sym (
                after_reset-claimed now (c ∷ claims) m
                  (ground (arith, eq_iff m.id c.message_id, eq_iff c.message_id m.id)) due)
        | inr other ↦
            ap (after_reset now claims) (reset_row-other now c.message_id m other)
            ∙ after_reset-other now c claims m
                (ground (arith, eq_iff m.id c.message_id, eq_iff c.message_id m.id))
      ]
    ]

map-step :
    (now : ℕ) (c : ProcessingAck) (claims : List ProcessingAck) (ms : List MessageIn)
    → map (after_reset now claims) (map (reset_row now c.message_id) ms)
      ≡ map (after_reset now (c ∷ claims)) ms
map-step now c claims [] = refl
map-step now c claims (m ∷ ms) = rw (after_reset-step now c claims m, map-step now c claims ms) refl

map-unclaimed : (now : ℕ) (ms : List MessageIn) → ms ≡ map (after_reset now []) ms
unfolding exists
map-unclaimed now [] = refl
map-unclaimed now (m ∷ ms) = ap (λ t. m ∷ t) (map-unclaimed now ms)

-- Where the ids of the table are keys, resetting the claims of a dead container, one lookup and one
-- UPDATE each, touches exactly the claimed pending rows with no retry ahead, each of them once:
-- at the limit of tries the row fails, below it its tries go up by one and it waits for the backoff.
pub reset_claims-rows :
    (now : ℕ) (claims : List ProcessingAck) (ms : List MessageIn)
    → UniqueIds ms
    → reset_claims now claims ms ≡ map (after_reset now claims) ms
unfolding reset_claims
reset_claims-rows now [] ms u = map-unclaimed now ms
reset_claims-rows now (c ∷ claims) ms u =
    ap (reset_claims now claims) (reset_one-rows now c.message_id ms u)
    ∙ reset_claims-rows now claims (map (reset_row now c.message_id) ms)
        (UniqueIds-reset now c.message_id ms u)
    ∙ map-step now c claims ms
