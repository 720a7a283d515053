-- ===== src/Delivery/Polls.antt =====
-- The two polls of src/delivery.ts as steps: `deliverSessionMessages` starts a drain of a session
-- unless one is under way; a drain awaits the adapter for one message after the other; between two
-- steps of a drain every other step may happen. How the turns end is not followed here.
use multi_user_agent_platfor.Base.{
  Bool, true, false, ◌&&◌, Option, none, some, List, [], ◌∷◌, String, ◌==◌, ◌≡◌, if◌then◌else◌,
  Result, ok, err, Distinct,
}
use multi_user_agent_platfor.Types.{MessageOut, Session}
use multi_user_agent_platfor.World.{World, messages_out}
use multi_user_agent_platfor.Delivery.Send.{Outlet, deliver_message}
use multi_user_agent_platfor.Delivery.Drain.{Queue, to_deliver, after_delivery, deliver_one}

-- A drain under way: the messages that it has not finished, and the answer for the first of them
-- where `deliverMessage` has returned.
pub record Drain : Type 0 where
  pub session : Session
  pub rest : List MessageOut
  pub answer : Option (Result (Option String))

-- A message of a session that `deliverMessage` has accepted.
pub record Accepted : Type 0 where
  pub session : Session
  pub id : String

-- `inflightDeliveries` is the ids at which `drains` has a drain.
pub record Polls : Type 0 where
  pub queue : Queue
  pub drains : String → Option Drain
  pub accepted : List Accepted

-- A process that has just started.
abbrev pub fresh : Queue → Polls
fresh q = record { queue = q; drains = λ i. none; accepted = [] }

unfoldable pub set_drain : String → Option Drain → (String → Option Drain) → String → Option Drain
set_drain id drain drains i = if i == id then drain else drains i

abbrev pub accept : Result (Option String) → Session → String → List Accepted → List Accepted
accept (ok p) session id log = record { session = session; id = id } ∷ log
accept (err e) session id log = log

abbrev pub same_id : MessageOut → MessageOut → Bool
same_id m n = m.id == n.id

abbrev pub same_message : Accepted → Accepted → Bool
same_message a b =
    a.session.agent_group_id == b.session.agent_group_id
    && a.session.id == b.session.id
    && a.id == b.id

module _ (outlet : Outlet) where
  abbrev pub started : Polls → Session → Polls
  started p s = record {
    queue = p.queue;
    drains =
        set_drain s.id
          (some (record { session = s; rest = to_deliver outlet s p.queue; answer = none }))
          p.drains;
    accepted = p.accepted;
  }

  abbrev pub handed : Polls → Session → MessageOut → List MessageOut → Polls
  handed p s m ms =
      let answered = deliver_message outlet m s p.queue.world in
      record {
        queue = record p.queue { world = answered.1 };
        drains =
            set_drain s.id (some (record { session = s; rest = m ∷ ms; answer = some answered.0 }))
              p.drains;
        accepted = p.accepted;
      }

  abbrev pub resumed :
      Polls → Session → MessageOut → List MessageOut → Result (Option String) → Polls
  resumed p s m ms r = record {
    queue = after_delivery outlet (r, p.queue.world) s m p.queue;
    drains = set_drain s.id (some (record { session = s; rest = ms; answer = none })) p.drains;
    accepted = accept r s m.id p.accepted;
  }

  abbrev pub skipped : Polls → Session → MessageOut → List MessageOut → Polls
  skipped p s m ms = record {
    queue = deliver_one outlet s m p.queue;
    drains = set_drain s.id (some (record { session = s; rest = ms; answer = none })) p.drains;
    accepted = p.accepted;
  }

  pub data Step : Polls → Polls → Type 0 where
    -- a poll finds no drain of the session; the id is the primary key of messages_out
    start :
        (p : Polls) (s : Session)
        → p.drains s.id ≡ none
        → Distinct same_id (messages_out p.queue.world s.agent_group_id s.id)
        → Step p (started p s)
    -- the next message is handed to `deliverMessage`
    hand :
        (p : Polls) (s : Session) (m : MessageOut) (ms : List MessageOut)
        → p.drains s.id ≡ some (record { session = s; rest = m ∷ ms; answer = none })
        → (m.kind == "llm-usage") ≡ false
        → Step p (handed p s m ms)
    -- `deliverMessage` has returned or thrown, and the drain goes on
    resume :
        (p : Polls) (s : Session) (m : MessageOut) (ms : List MessageOut)
        (r : Result (Option String))
        → p.drains s.id ≡ some (record { session = s; rest = m ∷ ms; answer = some r })
        → Step p (resumed p s m ms r)
    -- a usage record is only marked
    skip :
        (p : Polls) (s : Session) (m : MessageOut) (ms : List MessageOut)
        → p.drains s.id ≡ some (record { session = s; rest = m ∷ ms; answer = none })
        → (m.kind == "llm-usage") ≡ true
        → Step p (skipped p s m ms)
    -- the `finally` of a drain
    leave :
        (p : Polls) (s : Session)
        → p.drains s.id ≡ some (record { session = s; rest = []; answer = none })
        → Step p (record p { drains = set_drain s.id none p.drains })
    -- other handlers, and the containers
    elsewhere : (p : Polls) (w : World) → Step p (record p { queue = record p.queue { world = w } })

  pub data Reachable (p : Polls) : Polls → Type 0 where
    here : Reachable p p
    and_then : (a b : Polls) → Reachable p a → Step a b → Reachable p b
