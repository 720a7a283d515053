-- ===== src/World.antt =====
-- The state that the host's handlers share, and how a handler runs: it answers a value or throws,
-- and what it wrote before it throws stays written.
use multi_user_agent_platfor.Base.{
  ℕ, Bool, ◌&&◌, Option, List, [], ◌∷◌, ◌++◌, String, ◌==◌, ◌≡◌, refl, ap, Result, ok, err, Error,
  select, map,
}
use multi_user_agent_platfor.Types.{Central, MessageIn, MessageOut, InboundEvent}

-- A row of messages_in or messages_out with the session folder whose database holds it.
pub record InboxRow : Type 0 where
  pub agent_group_id : String
  pub session_id : String
  pub message : MessageIn

pub record OutboxRow : Type 0 where
  pub agent_group_id : String
  pub session_id : String
  pub message : MessageOut

-- Calls that leave the modelled code, in the order in which they are made.
pub data Effect : Type 0 where
  -- `wakeContainer(session)`
  wake_container : (session_id : String) → Effect
  -- `adapter.subscribe(platformId, threadId)`
  subscribe : (platform_id thread_id : String) → Effect
  -- the fire-and-forget `requestSenderApproval(...)`
  request_sender_approval :
      (messaging_group_id agent_group_id sender_identity : String)
      → Option String
      → InboundEvent
      → Effect
  -- the fire-and-forget `channelRequestGate(mg, event)`
  request_channel_approval : (messaging_group_id : String) → InboundEvent → Effect
  -- `deliveryAdapter.deliver(...)`, by the message of messages_out that it sends
  send : (channel_type platform_id message_id : String) → Effect
  -- the counter of replies that bypass the classification
  classification_bypass : (reason surface : String) → Effect

-- An approver who was asked for the name of a new agent.
pub record AwaitingName : Type 0 where
  pub user_id : String
  pub channel_mg_id : String
  pub dm_channel_type : String
  pub dm_platform_id : String

pub record World : Type 0 where
  pub central : Central
  pub inbox : List InboxRow
  pub outbox : List OutboxRow
  pub effects : List Effect
  -- how many random ids have been drawn
  pub draws : ℕ
  -- `awaitingNameInput` of src/modules/permissions/index.ts
  pub awaiting_names : List AwaitingName

abbrev pub M : Type 0 → Type 0
M A = World → Result A × World

abbrev pub pure : {A : Type 0} → A → M A
pure a w = (ok a, w)

abbrev pub throw : {A : Type 0} → Error → M A
throw e w = (err e, w)

abbrev pub continue_with : {A B : Type 0} → Result A → World → (A → M B) → Result B × World
continue_with (ok a) w f = f a w
continue_with (err e) w f = (err e, w)

infixl 5 ◌>>=◌ ◌>>◌
abbrev pub ◌>>=◌ : {A B : Type 0} → M A → (A → M B) → M B
◌>>=◌ m f w = let (r, w') = m w in continue_with r w' f

abbrev pub ◌>>◌ : {B : Type 0} → M (Unit {0}) → M B → M B
◌>>◌ m k w = let (r, w') = m w in continue_with r w' (λ _. k)

-- What a chain answers, its first step has answered before.
pub bind-eq-ok :
    {A B : Type 0} (m : M A) (f : A → M B) (w : World) {b : B} {u : World}
    → (m >>= f) w ≡ (ok b, u)
    → (a : A) × (v : World) × (m w ≡ (ok a, v)) × (f a v ≡ (ok b, u))
bind-eq-ok {A} {B} m f w {b} {u} h = go (m w) refl h
  where
    go :
        (r : Result A × World)
        → m w ≡ r
        → continue_with r.0 r.1 f ≡ (ok b, u)
        → (a : A) × (v : World) × (m w ≡ (ok a, v)) × (f a v ≡ (ok b, u))
    go (ok a, v) e k = (a, v, e, k)
    go (err x, v) e k = cc

-- A value that may throw, with no change of the state.
abbrev pub lift : {A : Type 0} → Result A → M A
lift r w = (r, w)

abbrev pub emit : Effect → M (Unit {0})
emit e w = (ok tt, record w { effects = w.effects ++ e ∷ [] })

abbrev pub stored : World → Result Central → Result (Unit {0}) × World
stored w (ok db) = (ok tt, record w { central = db })
stored w (err e) = (err e, w)

-- A statement on the central database, which may be refused.
abbrev pub on_central : (Central → Result Central) → M (Unit {0})
on_central f w = stored w (f w.central)

abbrev pub in_session : String → String → InboxRow → Bool
in_session agent_group_id session_id r =
    r.agent_group_id == agent_group_id && r.session_id == session_id

-- The messages_in table of one session.
unfoldable pub messages_in : World → String → String → List MessageIn
messages_in w agent_group_id session_id =
    map (λ r. r.message) (select (in_session agent_group_id session_id) w.inbox)

abbrev pub in_outbox : String → String → OutboxRow → Bool
in_outbox agent_group_id session_id r =
    r.agent_group_id == agent_group_id && r.session_id == session_id

-- The messages_out table of one session.
unfoldable pub messages_out : World → String → String → List MessageOut
messages_out w agent_group_id session_id =
    map (λ r. r.message) (select (in_outbox agent_group_id session_id) w.outbox)

pub on_central-eq-ok :
    (f : Central → Result Central) (w v : World) {x : Unit {0}}
    → on_central f w ≡ (ok x, v)
    → f w.central ≡ ok v.central
on_central-eq-ok f w v h = go (f w.central) h
  where
    go : (r : Result Central) {x : Unit {0}} → stored w r ≡ (ok x, v) → r ≡ ok v.central
    go (ok db) h =
        let reached : Result (Unit {0}) × World → Result Central = λ p. ok p.1.central in
        ap reached h
    go (err e) h = cc
