-- ===== src/Delivery/OnlyOnce.antt =====
-- That the polls of src/delivery.ts deliver no message twice, in whatever order they run.
use multi_user_agent_platfor.Base.{
  true, false, ◌&&◌, some, List, String, ◌==◌, ◌≡◌, ◌⊎◌, All, Distinct,
}
use multi_user_agent_platfor.Types.{Session}
use multi_user_agent_platfor.World.{World}
use multi_user_agent_platfor.Delivery.Drain.{DeliveredRow, settled}
use multi_user_agent_platfor.Delivery.Polls.{Drain, Polls, same_id, same_message}

-- A drain under the id of its session, whose messages are distinct and not yet marked.
pub record Ready (rows : List DeliveredRow) (i : String) (d : Drain) : Type 0 where
  pub key : (d.session.id == i) ≡ true
  pub unmarked : All (λ m. settled rows d.session m.id ≡ false) d.rest
  pub distinct : Distinct same_id d.rest

-- What was accepted is marked and was accepted once, and the drains are ready.
pub record Sound (p : Polls) : Type 0 where
  pub ready : (i : String) (d : Drain) → p.drains i ≡ some d → Ready p.queue.delivered_rows i d
  pub marked : All (λ a. settled p.queue.delivered_rows a.session a.id ≡ true) p.accepted
  pub once : Distinct same_message p.accepted

-- The rows that `rows'` adds mark one message only.
abbrev MarksOnly : Session → String → List DeliveredRow → List DeliveredRow → Type 0
MarksOnly s id rows rows' =
    (s' : Session) (i : String)
    → settled rows' s' i ≡ true
    → (settled rows s' i ≡ true)
      ⊎ ((s.agent_group_id == s'.agent_group_id && s.id == s'.id && id == i) ≡ true)
