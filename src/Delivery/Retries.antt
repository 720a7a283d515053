-- ===== src/Delivery/Retries.antt =====
-- The retries of a drain: their bound, and that every due message is settled.
use multi_user_agent_platfor.Base.{
  ℕ, ◌+◌, ◌≤◌, ◌<◌, true, false, not, ◌&&◌, ◌||◌, Option, none, List, [], ◌∷◌, String, ◌==◌, ◌≡◌,
  ◌⊎◌, inl, inr, ◌∙◌, arith, eq_iff, eq_refl, leb, is_null, In, exists, exists-append, Result, ok,
  err, Bool-cases, In-of_select,
}
use multi_user_agent_platfor.Types.{MessageOut, Session}
use multi_user_agent_platfor.World.{World, messages_out}
use multi_user_agent_platfor.Router.Fanout.{get_agent_group}
use multi_user_agent_platfor.Delivery.Completion.{DeliveryCompletion}
use multi_user_agent_platfor.Delivery.Send.{Outlet, deliver_message}
use multi_user_agent_platfor.Delivery.Drain.{
  Queue, DeliveredRow, DeliveredStatus, marks, settled, mark, set_attempts, max_delivery_attempts,
  get_due_outbound_messages, delivered, gave_up, count_attempt, finish, retry_later, after_delivery,
  deliver_one, deliver_all, undelivered, drain_session,
}

-- No message has used up its attempts.
unfoldable pub Bounded : Queue → Type 0
Bounded q = (id : String) → q.attempts id < max_delivery_attempts

-- Marking keeps what is settled and settles the message.
pub settled-mark :
    (st : DeliveredStatus) (now : ℕ) (s : Session) (id : String) (p : Option String)
    (rows : List DeliveredRow) (s' : Session) (i : String)
    → settled (mark st now s id p rows) s' i
      ≡ (settled rows s' i || (s.agent_group_id == s'.agent_group_id && s.id == s'.id && id == i))
unfolding settled mark exists
settled-mark st now s id p rows s' i = elim (Bool-cases (settled rows s id)) [
  | inl was ↦
      rw was ground
        (arith, eq_iff s.agent_group_id s'.agent_group_id, eq_iff s.id s'.id, eq_iff id i)
  | inr new ↦ rw new (exists-append (marks s' i) rows _ ∙ ground arith)
]

pub settled-mark_self :
    (st : DeliveredStatus) (now : ℕ) (s : Session) (id : String) (p : Option String)
    (rows : List DeliveredRow)
    → settled (mark st now s id p rows) s id ≡ true
settled-mark_self st now s id p rows =
    settled-mark st now s id p rows s id
    ∙ ground (arith, eq_refl s.agent_group_id, eq_refl s.id, eq_refl id)

module _ (outlet : Outlet) where
  -- An attempt is the last one for its message, or it counts and another one follows.
  pub data Attempt (s : Session) (m : MessageOut) (q : Queue) : Queue → Type 0 where
    last_one :
        (st : DeliveredStatus) (p : Option String) (next : Option DeliveryCompletion) (w : World)
        → Attempt s m q (finish outlet st s m p next w q)
    another : (w : World) → q.attempts m.id + 1 < 3 → Attempt s m q (count_attempt outlet m w q)

  pub after_delivery-Attempt :
      (r : Result (Option String) × World) (s : Session) (m : MessageOut) (q : Queue)
      → Attempt s m q (after_delivery outlet r s m q)
  unfolding retry_later after_delivery
  after_delivery-Attempt (ok p, w) s m q = last_one delivered p _ w
  after_delivery-Attempt (err e, w) s m q = elim (Bool-cases (leb 3 (q.attempts m.id + 1))) [
    | inl full ↦ rw full (last_one gave_up none _ w)
    | inr more ↦ rw more (another w (ground arith))
  ]

  pub deliver_one-Attempt :
      (s : Session) (m : MessageOut) (q : Queue) → Attempt s m q (deliver_one outlet s m q)
  unfolding deliver_one
  deliver_one-Attempt s m q = elim (Bool-cases (m.kind == "llm-usage")) [
    | inl usage ↦ rw usage (last_one delivered none none q.world)
    | inr other ↦ rw other (after_delivery-Attempt (deliver_message outlet m s q.world) s m q)
  ]

  Attempt-progress :
      (s : Session) (m : MessageOut) (q q' : Queue)
      → Attempt s m q q'
      → (settled q'.delivered_rows s m.id ≡ true) ⊎ (q.attempts m.id < q'.attempts m.id)
  unfolding set_attempts
  Attempt-progress s m q q' (last_one st p next w) =
      inl (settled-mark_self st _ s m.id p q.delivered_rows)
  Attempt-progress s m q q' (another w l) = inr (ground (arith, eq_refl m.id))

  Attempt-keeps :
      (s : Session) (m : MessageOut) (q q' : Queue) (i : String)
      → Attempt s m q q'
      → (settled q'.delivered_rows s i ≡ true)
        ⊎ ((settled q.delivered_rows s i ≡ false) × (q.attempts i ≤ q'.attempts i))
  unfolding set_attempts
  Attempt-keeps s m q q' i (last_one st p next w) = ground (
    arith,
    settled-mark st outlet.host.now s m.id p q.delivered_rows s i,
    eq_refl s.agent_group_id,
    eq_refl s.id,
    eq_iff i m.id,
    eq_iff m.id i,
  )
  Attempt-keeps s m q q' i (another w l) = ground (arith, eq_iff i m.id)

  -- What is marked stays marked.
  pub Attempt-marked :
      (s : Session) (m : MessageOut) (q q' : Queue)
      → Attempt s m q q'
      → (s' : Session) (i : String) → settled q.delivered_rows s' i ≡ true
      → settled q'.delivered_rows s' i ≡ true
  Attempt-marked s m q q' (last_one st p next w) s' i h =
      ground (arith, settled-mark st outlet.host.now s m.id p q.delivered_rows s' i)
  Attempt-marked s m q q' (another w l) s' i h = h

  -- An attempt marks nothing but its message.
  pub Attempt-marks_only :
      (s : Session) (m : MessageOut) (q q' : Queue)
      → Attempt s m q q'
      → (s' : Session) (i : String) → settled q'.delivered_rows s' i ≡ true
      → (settled q.delivered_rows s' i ≡ true)
        ⊎ ((s.agent_group_id == s'.agent_group_id && s.id == s'.id && m.id == i) ≡ true)
  Attempt-marks_only s m q q' (last_one st p next w) s' i h =
      ground (arith, settled-mark st outlet.host.now s m.id p q.delivered_rows s' i)
  Attempt-marks_only s m q q' (another w l) s' i h = inl h

  Attempt-Bounded :
      (s : Session) (m : MessageOut) (q q' : Queue) → Attempt s m q q' → Bounded q → Bounded q'
  unfolding Bounded set_attempts
  Attempt-Bounded s m q q' (last_one st p next w) h i = ground (arith, h i)
  Attempt-Bounded s m q q' (another w l) h i = ground (arith, h i)

  -- What a whole run over messages does to one id.
  deliver_all-keeps :
      (s : Session) (ms : List MessageOut) (q : Queue) (i : String)
      → (settled (deliver_all outlet s ms q).delivered_rows s i ≡ true)
        ⊎ ((settled q.delivered_rows s i ≡ false)
            × (q.attempts i ≤ (deliver_all outlet s ms q).attempts i))
  unfolding deliver_all
  deliver_all-keeps s [] q i = ground (arith, Bool-cases (settled q.delivered_rows s i))
  deliver_all-keeps s (m ∷ ms) q i = ground (
    arith,
    Attempt-keeps s m q _ i (deliver_one-Attempt s m q),
    deliver_all-keeps s ms (deliver_one outlet s m q) i,
  )

  deliver_all-progress :
      (s : Session) (ms : List MessageOut) (m : MessageOut) (q : Queue)
      → In m ms
      → (settled (deliver_all outlet s ms q).delivered_rows s m.id ≡ true)
        ⊎ (q.attempts m.id < (deliver_all outlet s ms q).attempts m.id)
  unfolding deliver_all
  deliver_all-progress s [] m q h = absurd h
  deliver_all-progress s (x ∷ ms) m q (inl e) = rw e ground (
    arith,
    Attempt-progress s x q _ (deliver_one-Attempt s x q),
    deliver_all-keeps s ms (deliver_one outlet s x q) x.id,
  )
  deliver_all-progress s (x ∷ ms) m q (inr h) = ground (
    arith,
    Attempt-keeps s x q _ m.id (deliver_one-Attempt s x q),
    deliver_all-keeps s ms (deliver_one outlet s x q) m.id,
    deliver_all-progress s ms m (deliver_one outlet s x q) h,
  )

  deliver_all-Bounded :
      (s : Session) (ms : List MessageOut) (q : Queue)
      → Bounded q
      → Bounded (deliver_all outlet s ms q)
  unfolding deliver_all
  deliver_all-Bounded s [] q h = h
  deliver_all-Bounded s (m ∷ ms) q h =
      deliver_all-Bounded s ms (deliver_one outlet s m q)
        (Attempt-Bounded s m q _ (deliver_one-Attempt s m q) h)

  -- A drain leaves every message with fewer than three attempts counted, where it finds them so.
  pub drain_session-Bounded :
      (s : Session) (q : Queue) → Bounded q → Bounded (drain_session outlet s q)
  unfolding drain_session Bounded
  drain_session-Bounded s q h =
      elim (Bool-cases (is_null (get_agent_group q.world.central s.agent_group_id))) [
        | inl gone ↦ rw gone h
        | inr there ↦ rw there (deliver_all-Bounded s (undelivered outlet s q) _ h)
      ]

  -- The message waits in the session's outbound queue, and is due.
  pub record Waiting (s : Session) (m : MessageOut) (w : World) : Type 0 where
    pub group_there : is_null (get_agent_group w.central s.agent_group_id) ≡ false
    pub queued :
        In m (get_due_outbound_messages outlet.host.now (messages_out w s.agent_group_id s.id))

  -- One drain settles a waiting message or counts an attempt.
  drain_session-progress :
      (s : Session) (m : MessageOut) (q : Queue)
      → Waiting s m q.world
      → (settled (drain_session outlet s q).delivered_rows s m.id ≡ true)
        ⊎ (q.attempts m.id < (drain_session outlet s q).attempts m.id)
  unfolding drain_session undelivered
  drain_session-progress s m q h =
      rw (h.group_there) (elim (Bool-cases (settled q.delivered_rows s m.id)) [
        | inl done ↦ ground (
          arith,
          deliver_all-keeps s (undelivered outlet s q)
              (record q { handled_outbound = false; completion = none }) m.id,
        )
        | inr left ↦
            deliver_all-progress s _ m _ (
              In-of_select (λ m. not (settled q.delivered_rows s m.id)) _ m h.queued (ground arith))
      ])

  pub drain_session-keeps :
      (s : Session) (q : Queue) (i : String)
      → settled q.delivered_rows s i ≡ true
      → settled (drain_session outlet s q).delivered_rows s i ≡ true
  unfolding drain_session
  drain_session-keeps s q i h =
      elim (Bool-cases (is_null (get_agent_group q.world.central s.agent_group_id))) [
        | inl gone ↦ rw gone h
        | inr there ↦ rw there ground (
          arith,
          deliver_all-keeps s (undelivered outlet s q)
              (record q { handled_outbound = false; completion = none }) i,
        )
      ]

  -- A drain of the session in a world that others may have changed since the last one.
  abbrev pub drain_in : Session → World → Queue → Queue
  drain_in s w q = drain_session outlet s (record q { world = w })

  -- A message that is due is settled, delivered or given up, by the third drain that finds it,
  -- whatever the adapter answers and whatever others change between the drains. At the start each
  -- message has fewer than three attempts, and the session's agent group exists at each drain.
  pub drain_session-settles :
      (s : Session) (m : MessageOut) (q : Queue) (w1 w2 w3 : World)
      → Bounded q
      → Waiting s m w1
      → Waiting s m w2
      → Waiting s m w3
      → settled (drain_in s w3 (drain_in s w2 (drain_in s w1 q))).delivered_rows s m.id ≡ true
  unfolding Bounded
  drain_session-settles s m q w1 w2 w3 h k1 k2 k3 =
      let q1 = drain_in s w1 q in
      let q2 = drain_in s w2 q1 in
      let q3 = drain_in s w3 q2 in
      let b1 = drain_session-Bounded s (record q { world = w1 }) h in
      let b2 = drain_session-Bounded s (record q1 { world = w2 }) b1 in
      let b3 = drain_session-Bounded s (record q2 { world = w3 }) b2 m.id in
      ground (
        arith,
        b3,
        drain_session-progress s m (record q { world = w1 }) k1,
        drain_session-progress s m (record q1 { world = w2 }) k2,
        drain_session-progress s m (record q2 { world = w3 }) k3,
        drain_session-keeps s (record q1 { world = w2 }) m.id,
        drain_session-keeps s (record q2 { world = w3 }) m.id,
      )
