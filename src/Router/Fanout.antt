-- ===== src/Router/Fanout.antt =====
-- The fan-out loop of `routeInboundInner` in src/router.ts: each wired agent is tried by itself.
use multi_user_agent_platfor.Base.{
  ℕ, ◌+◌, Bool, true, false, not, ◌&&◌, ◌||◌, Option, none, some, List, [], ◌∷◌, String, ◌==◌,
  if◌then◌else◌, coalesce, is_null, find, Json,
}
use multi_user_agent_platfor.Host.{Host, Adapter}
use multi_user_agent_platfor.Types.{
  Central, AgentGroup, MessagingGroup, MessagingGroupAgent, InboundEvent, SessionMode, accumulates,
  is_sticky, is_user_scoped_session_mode,
}
use multi_user_agent_platfor.World.{M, pure, emit, ◌>>=◌, ◌>>◌, subscribe}
use multi_user_agent_platfor.Permissions.Gates.{
  AccessGateResult, allow, passes, access_gate, sender_scope_gate,
}
use multi_user_agent_platfor.Router.Engage.{resolve_effective_session_mode, evaluate_engage}
use multi_user_agent_platfor.Router.Deliver.{deliver_to_agent}

unfoldable pub get_agent_group : Central → String → Option AgentGroup
get_agent_group db id = find (λ g. g.id == id) db.agent_groups

-- The loop's variables.
pub record Tally : Type 0 where
  pub engaged : ℕ
  pub accumulated : ℕ
  pub denied : ℕ
  pub subscribed : Bool

abbrev pub supports_threads : Option Adapter → Bool
supports_threads none = false
supports_threads (some a) = a.supports_threads

abbrev pub can_subscribe : Option Adapter → Bool
can_subscribe none = false
can_subscribe (some a) = a.supports_threads && a.can_subscribe

module _ (host : Host) (event : InboundEvent) (mg : MessagingGroup) (user_id : Option String) where
  -- What the permissions module's hooks say; without the module everybody passes.
  unfoldable pub ask_access_gate : String → M AccessGateResult
  ask_access_gate agent_group_id w =
      if host.permissions
      then access_gate host.engine host.now event user_id mg agent_group_id w
      else pure allow w

  unfoldable pub ask_scope_gate : MessagingGroupAgent → M AccessGateResult
  ask_scope_gate agent w =
      if host.permissions then pure (sender_scope_gate w.central user_id agent) w else pure allow w

  unfoldable pub should_subscribe : MessagingGroupAgent → Tally → Bool
  should_subscribe agent t =
      not t.subscribed
      && is_sticky agent.engage_mode
      && can_subscribe (host.adapter event.channel_type)
      && not (is_null event.thread_id)
      && mg.is_group

  unfoldable pub maybe_subscribe : MessagingGroupAgent → Tally → M Tally
  maybe_subscribe agent t =
      if should_subscribe agent t
      then (do
        emit (subscribe event.platform_id (coalesce event.thread_id ""))
        pure (record t { subscribed = true }))
      else pure t

  -- The sender has passed both gates.
  unfoldable pub engage_agent : MessagingGroupAgent → SessionMode → Tally → M Tally
  engage_agent agent mode t = do
    deliver_to_agent host agent mg event user_id mode true
    maybe_subscribe agent (record t { engaged = t.engaged + 1 })

  unfoldable pub accumulate_for : MessagingGroupAgent → SessionMode → Tally → M Tally
  accumulate_for agent mode t = do
    deliver_to_agent host agent mg event user_id mode false
    pure (record t { accumulated = t.accumulated + 1 })

  unfoldable pub count_denied : Bool → Tally → Tally
  count_denied refused t = if refused then record t { denied = t.denied + 1 } else t

  -- The agent engages, and the mode has the identity that it needs: the gates decide.
  unfoldable pub gate_agent : MessagingGroupAgent → SessionMode → Tally → M Tally
  gate_agent agent mode t = do
    access ← ask_access_gate agent.agent_group_id
    scope ← ask_scope_gate agent
    if passes access && passes scope then engage_agent agent mode t else pure (count_denied true t)

  unfoldable pub effective_mode : MessagingGroupAgent → SessionMode
  effective_mode agent =
      resolve_effective_session_mode agent.session_mode
        (supports_threads (host.adapter event.channel_type)) mg.is_group

  unfoldable pub engages : Json → MessagingGroupAgent → Central → Bool
  engages text agent db =
      evaluate_engage host.engine db agent text event.message.is_mention mg event.thread_id
        (effective_mode agent) user_id

  unfoldable pub identity_ok : MessagingGroupAgent → Bool
  identity_ok agent =
      not (is_user_scoped_session_mode (effective_mode agent)) || not (is_null user_id)

  unfoldable pub try_agent : Json → MessagingGroupAgent → Tally → M Tally
  try_agent text agent t w =
      if is_null (get_agent_group w.central agent.agent_group_id)
      then pure t w
      else if engages text agent w.central && identity_ok agent
      then gate_agent agent (effective_mode agent) t w
      else if identity_ok agent
          && accumulates agent.ignored_message_policy
          && not (engages text agent w.central)
      then accumulate_for agent (effective_mode agent) t w
      else pure t w

  unfoldable pub fan_out : Json → List MessagingGroupAgent → Tally → M Tally
  fan_out text [] t = pure t
  fan_out text (agent ∷ agents) t = do next ← try_agent text agent t; fan_out text agents next
