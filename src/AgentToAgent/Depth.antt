-- ===== src/AgentToAgent/Depth.antt =====
-- The guards of src/modules/agent-to-agent/agent-route.ts: destinations and the spawn-depth cap.
use multi_user_agent_platfor.Base.{
  ℕ, ◌<◌, Bool, true, false, Option, none, String, ◌≡◌, ◌≢◌, ◌⊎◌, inl, inr, refl, arith, eq_iff,
  coalesce, is_null, Result, Option-cases,
}
use multi_user_agent_platfor.Host.{Host}
use multi_user_agent_platfor.Types.{Central, Session, agent}
use multi_user_agent_platfor.World.{World}
use multi_user_agent_platfor.Router.Fanout.{get_agent_group}
use multi_user_agent_platfor.AgentToAgent.Destinations.{has_destination}
use multi_user_agent_platfor.AgentToAgent.Route.{
  RoutableAgentMessage, resolve_max_spawn_depth, objection, route_unless, route_agent_message,
}
use multi_user_agent_platfor.AgentToAgent.SpawnCap.{Capped}
use multi_user_agent_platfor.AgentToAgent.Carrying.{carry-Capped}

allowed-depth :
    (host : Host) (env : Option ℕ) (rooted : String → Bool)
    (forward : RoutableAgentMessage → String → Session → String → String → Result String)
    (db : Central) (source : Session) (target : String)
    → target ≢ source.agent_group_id
    → objection host env rooted forward db source target ≡ none
    → source.spawn_depth < resolve_max_spawn_depth env
unfolding objection
allowed-depth host env rooted forward db source target n e =
    ground (arith, eq_iff target source.agent_group_id)

authority :
    (host : Host) (env : Option ℕ) (rooted : String → Bool)
    (forward : RoutableAgentMessage → String → Session → String → String → Result String)
    (db : Central) (source : Session) (target : String)
    → objection host env rooted forward db source target ≡ none
    → ((target ≡ source.agent_group_id)
        ⊎ ((has_destination db source.agent_group_id agent target ≡ true)
            × (source.spawn_depth < resolve_max_spawn_depth env)))
      × (is_null (get_agent_group db target) ≡ false)
unfolding objection
authority host env rooted forward db source target e =
    ground (arith, eq_iff target source.agent_group_id)

-- A message to another agent never makes a session beyond the spawn-depth cap: where every session
-- is within the cap, every session is within it after the message, whether it is carried or refused.
pub route_agent_message-Capped :
    (host : Host) (env : Option ℕ) (rooted : String → Bool)
    (forward : RoutableAgentMessage → String → Session → String → String → Result String)
    (msg : RoutableAgentMessage) (source : Session) (w : World)
    → coalesce msg.platform_id "" ≢ source.agent_group_id
    → Capped (resolve_max_spawn_depth env) w
    → Capped
        (resolve_max_spawn_depth env)
        (route_agent_message host env rooted forward msg source w).1
unfolding route_agent_message route_unless
route_agent_message-Capped host env rooted forward msg source w n h =
    let target = coalesce msg.platform_id "" in
    elim (Option-cases (objection host env rooted forward w.central source target)) [
      | inr (reason, refused) ↦ rw refused h
      | inl fine ↦ rw fine (
          carry-Capped (resolve_max_spawn_depth env) host env rooted forward msg source target w
            (allowed-depth host env rooted forward w.central source target n fine) h)
    ]

-- A message between agents changes the platform only where the target is the sender's own group or
-- one of its destinations, the target group exists, and a sender of another group is below the
-- spawn-depth cap.
pub route_agent_message-needs_authority :
    (host : Host) (env : Option ℕ) (rooted : String → Bool)
    (forward : RoutableAgentMessage → String → Session → String → String → Result String)
    (msg : RoutableAgentMessage) (source : Session) (w : World)
    → (route_agent_message host env rooted forward msg source w).1 ≢ w
    → ((coalesce msg.platform_id "" ≡ source.agent_group_id)
        ⊎ ((has_destination w.central source.agent_group_id agent (coalesce msg.platform_id "")
              ≡ true)
            × (source.spawn_depth < resolve_max_spawn_depth env)))
      × (is_null (get_agent_group w.central (coalesce msg.platform_id "")) ≡ false)
unfolding route_agent_message route_unless
route_agent_message-needs_authority host env rooted forward msg source w moved =
    let target = coalesce msg.platform_id "" in
    elim (Option-cases (objection host env rooted forward w.central source target)) [
      | inr (reason, refused) ↦ absurd (moved (rw refused refl))
      | inl fine ↦ authority host env rooted forward w.central source target fine
    ]
