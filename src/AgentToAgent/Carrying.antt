-- ===== src/AgentToAgent/Carrying.antt =====
-- That carrying a message to another agent keeps the sessions within the spawn-depth cap.
use multi_user_agent_platfor.Base.{
  ℕ, ◌<◌, Bool, true, false, not, ◌||◌, Option, none, some, String, inl, inr, refl, if◌then◌else◌,
  truthy, Result, Bool-cases,
}
use multi_user_agent_platfor.Host.{Host}
use multi_user_agent_platfor.Types.{Session, MessagingGroup}
use multi_user_agent_platfor.World.{World, M, pure, lift}
use multi_user_agent_platfor.Router.Deliver.{fresh_id, resolve, write_session_message}
use multi_user_agent_platfor.AgentToAgent.Route.{
  RoutableAgentMessage, a2a_scope, target_session, resolve_target_session, relay_to,
  relay_direct_return, origin_user, hand_over, settle, carry,
}
use multi_user_agent_platfor.AgentToAgent.SpawnCap.{
  Capped, Capped-bind, resolve-Capped, write_session_message-Capped, write_outbound_direct-Capped,
  wake_session-Capped,
}

module _ (cap : ℕ) (host : Host) where
  module _ (env : Option ℕ) (rooted : String → Bool)
      (forward : RoutableAgentMessage → String → Session → String → String → Result String) where
    target_session-Capped :
        (r : Option Session) (source : Session) (target : String) (direct : Bool) (w : World)
        → source.spawn_depth < cap
        → Capped cap w
        → Capped cap (target_session host env rooted forward r source target direct w).1
    unfolding target_session
    target_session-Capped (some s) source target direct w l h = h
    target_session-Capped none source target direct w l h =
        Capped-bind cap (resolve host (a2a_scope host env rooted forward source target)) _ w
          (resolve-Capped cap host (a2a_scope host env rooted forward source target)
            source.spawn_depth w refl l h)
          (λ f v k. k)

    relay_to-Capped :
        (mg : Option MessagingGroup) (target : Session) (msg : RoutableAgentMessage)
        (content : String) (w : World)
        → Capped cap w
        → Capped cap (relay_to host env rooted forward mg target msg content w).1
    unfolding relay_to fresh_id
    relay_to-Capped none target msg content w h = h
    relay_to-Capped (some mg) target msg content w h =
        write_outbound_direct-Capped cap host _ _ _ _ h

    relay-Capped :
        (direct : Bool) (target : Session) (msg : RoutableAgentMessage) (content : String)
        (w : World)
        → Capped cap w
        → Capped cap (relay_direct_return host env rooted forward direct target msg content w).1
    unfolding relay_direct_return
    relay-Capped direct target msg content w h =
        elim (Bool-cases (not direct || not (truthy target.messaging_group_id))) [
          | inl skipped ↦ rw skipped h
          | inr tried ↦ rw tried (relay_to-Capped _ target msg content w h)
        ]

    hand_over-Capped :
        (id : String) (target : Session) (g content : String) (user : Option String)
        (source : Session) (w : World)
        → Capped cap w
        → Capped cap (hand_over host env rooted forward id target g content user source w).1
    unfolding hand_over
    hand_over-Capped id target g content user source w h =
        Capped-bind cap (write_session_message host g target.id _) _ w
          (write_session_message-Capped cap host g target.id _ w h)
          (λ x v k. wake_session-Capped cap host target.id v k)

    unless_relayed-Capped :
        (relayed : Bool) (m : M (Unit {0})) (w : World)
        → Capped cap w
        → Capped cap (m w).1
        → Capped cap ((if relayed then pure tt else m) w).1
    unless_relayed-Capped true m w h k = h
    unless_relayed-Capped false m w h k = k

    settle-Capped :
        (id : String) (found : Session × Bool) (target content : String)
        (msg : RoutableAgentMessage) (source : Session) (w : World)
        → Capped cap w
        → Capped cap (settle host env rooted forward id found target content msg source w).1
    unfolding settle
    settle-Capped id found target content msg source w h =
        Capped-bind cap (relay_direct_return host env rooted forward found.1 found.0 msg content) _
          w (relay-Capped found.1 found.0 msg content w h)
          (λ relayed y z.
            unless_relayed-Capped relayed
              (hand_over host env rooted forward id found.0 target content
                (origin_user host env rooted forward msg source w) source)
              y z
              (hand_over-Capped id found.0 target content
                (origin_user host env rooted forward msg source w) source y z))

    fresh_id-Capped :
        (prefix : String) (w : World) → Capped cap w → Capped cap (fresh_id host prefix w).1
    unfolding fresh_id
    fresh_id-Capped prefix w h = h

    resolve_target-Capped :
        (msg : RoutableAgentMessage) (source : Session) (target : String) (w : World)
        → source.spawn_depth < cap
        → Capped cap w
        → Capped cap (resolve_target_session host env rooted forward msg source target w).1
    unfolding resolve_target_session
    resolve_target-Capped msg source target w l h = target_session-Capped _ source target _ w l h

    pub carry-Capped :
        (msg : RoutableAgentMessage) (source : Session) (target : String) (w : World)
        → source.spawn_depth < cap
        → Capped cap w
        → Capped cap (carry host env rooted forward msg source target w).1
    unfolding carry
    carry-Capped msg source target w l h =
        Capped-bind cap {B = Unit {0}}
          (resolve_target_session host env rooted forward msg source target) _ w
          (resolve_target-Capped msg source target w l h)
          (λ found v k.
            Capped-bind cap {B = Unit {0}} (fresh_id host "a2a-") _ v (fresh_id-Capped "a2a-" v k)
              (λ id v' k'.
                Capped-bind cap {B = Unit {0}} (lift (forward msg id source target found.0.id))
                  (λ content. settle host env rooted forward id found target content msg source) v'
                  k' (λ content u q. settle-Capped id found target content msg source u q)))
