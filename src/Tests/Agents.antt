-- ===== src/Tests/Agents.antt =====
-- Messages between agents at concrete inputs.
use multi_user_agent_platfor.Base.{
  ℕ, ◌<◌, Bool, true, false, Option, none, some, List, [], ◌∷◌, length, String, ◌≡◌, ◌≢◌, ◌⊎◌, refl,
  sym, ap, ◌∙◌, arith, eq_iff, Result, ok, is_null, All, exists, find, select,
}
use multi_user_agent_platfor.Types.{Session, agent}
use multi_user_agent_platfor.World.{World, Effect}
use multi_user_agent_platfor.Router.Fanout.{get_agent_group}
use multi_user_agent_platfor.AgentToAgent.Destinations.{has_destination}
use multi_user_agent_platfor.AgentToAgent.Route.{
  RoutableAgentMessage, resolve_max_spawn_depth, route_agent_message,
}
use multi_user_agent_platfor.AgentToAgent.SpawnCap.{Capped}
use multi_user_agent_platfor.AgentToAgent.Depth.{
  route_agent_message-Capped, route_agent_message-needs_authority,
}
use multi_user_agent_platfor.Sessions.Table.{get_session}
use multi_user_agent_platfor.AgentToAgent.Projection.{
  DestinationRow, chat_entry, agent_entry, is_chat, write_destinations,
}
use multi_user_agent_platfor.AgentToAgent.Visibility.{OnlyChat, write_destinations-OnlyChat}
use multi_user_agent_platfor.Tests.Data.{host, central, world, desk_session, chat_group}

abbrev task_message : RoutableAgentMessage
task_message = record {
  id = "out-1";
  platform_id = some "worker";
  content = "do it";
  in_reply_to = none;
  origin_user_id = some "tg:owner";
}

abbrev forward : RoutableAgentMessage → String → Session → String → String → Result String
forward m id source target session = ok m.content

abbrev desk_world : World
desk_world = record world { central = record central { sessions = desk_session ∷ [] } }

abbrev routed : World
routed = (route_agent_message host none (λ g. false) forward task_message desk_session desk_world).1

route_agent_message-Capped_example : Capped (resolve_max_spawn_depth none) routed
unfolding resolve_max_spawn_depth
route_agent_message-Capped_example =
    route_agent_message-Capped host none (λ g. false) forward task_message desk_session desk_world
      (ground (arith, eq_iff "worker" "desk")) (ground arith, tt)

abbrev wakes : World → ℕ
wakes w = length w.effects

woken : wakes routed ≡ 1
unfolding multi_user_agent_platfor.Sessions.Table.newest route_agent_message
    multi_user_agent_platfor.AgentToAgent.Route.route_unless
    multi_user_agent_platfor.AgentToAgent.Route.objection
    multi_user_agent_platfor.AgentToAgent.Route.carry
    multi_user_agent_platfor.AgentToAgent.Route.resolve_target_session
    multi_user_agent_platfor.AgentToAgent.Route.target_session
    multi_user_agent_platfor.AgentToAgent.Route.returning
    multi_user_agent_platfor.AgentToAgent.Route.return_path
    multi_user_agent_platfor.AgentToAgent.Route.get_most_recent_peer_source_session_id
    multi_user_agent_platfor.AgentToAgent.Route.get_inbound_source_session_id
    multi_user_agent_platfor.AgentToAgent.Route.hand_over
    multi_user_agent_platfor.AgentToAgent.Route.origin_user
    multi_user_agent_platfor.AgentToAgent.Route.origin_of
    multi_user_agent_platfor.AgentToAgent.Route.resolve_origin_user_id
    multi_user_agent_platfor.AgentToAgent.Route.relay_direct_return
    multi_user_agent_platfor.AgentToAgent.Route.relay_to
    multi_user_agent_platfor.AgentToAgent.Route.settle multi_user_agent_platfor.Base.exists
    multi_user_agent_platfor.Base.find multi_user_agent_platfor.Base.select
    multi_user_agent_platfor.Base.order_by_desc multi_user_agent_platfor.Base.update_where
    multi_user_agent_platfor.Base.lookup_field multi_user_agent_platfor.Base.namespaced
    multi_user_agent_platfor.World.messages_in multi_user_agent_platfor.Router.Deliver.resolve
    multi_user_agent_platfor.Router.Deliver.fresh_id
    multi_user_agent_platfor.Router.Deliver.write_session_message
    multi_user_agent_platfor.Router.Deliver.insert_into_session
    multi_user_agent_platfor.Router.Deliver.inserted
    multi_user_agent_platfor.Router.Deliver.wake_session
    multi_user_agent_platfor.Permissions.Roles.agent_group_exists
    multi_user_agent_platfor.Sessions.Resolve.resolve_session
    multi_user_agent_platfor.Sessions.Resolve.create
    multi_user_agent_platfor.Sessions.Resolve.find_existing
    multi_user_agent_platfor.Sessions.Resolve.find_lane
    multi_user_agent_platfor.Sessions.Resolve.new_session
    multi_user_agent_platfor.Sessions.Table.create_session
    multi_user_agent_platfor.Sessions.Table.get_session
    multi_user_agent_platfor.Sessions.Table.update_session
    multi_user_agent_platfor.Sessions.Table.find_session_by_agent_group
    multi_user_agent_platfor.SessionDb.Inbound.insert_message
    multi_user_agent_platfor.SessionDb.Inbound.insert_row
    multi_user_agent_platfor.SessionDb.Inbound.next_even_seq
    multi_user_agent_platfor.SessionDb.Inbound.max_seq has_destination get_agent_group
    resolve_max_spawn_depth
woken = refl

one-≢-zero : ◌≢◌ {A = ℕ} 1 0
one-≢-zero e = ground arith

moved : routed ≢ desk_world
moved e = one-≢-zero (sym woken ∙ ap wakes e)

route_agent_message-needs_authority_example :
    ((◌≡◌ {A = String} "worker" "desk")
      ⊎ ((has_destination desk_world.central "desk" agent "worker" ≡ true)
          × (0 < resolve_max_spawn_depth none)))
    × (is_null (get_agent_group desk_world.central "worker") ≡ false)
route_agent_message-needs_authority_example =
    route_agent_message-needs_authority host none (λ g. false) forward task_message desk_session
      desk_world moved

abbrev projected : List DestinationRow
projected =
    chat_entry "origin" "tg:chat" chat_group
    ∷ agent_entry "w" (record { id = "worker"; name = "Worker"; folder = "worker" })
    ∷ []

write_destinations-OnlyChat_example :
    All (OnlyChat chat_group) projected × (exists is_chat projected ≡ true)
unfolding get_session find multi_user_agent_platfor.Router.Inbound.get_messaging_group
    get_agent_group multi_user_agent_platfor.AgentToAgent.Destinations.get_destinations
    write_destinations multi_user_agent_platfor.AgentToAgent.Projection.destination_entries
    multi_user_agent_platfor.AgentToAgent.Projection.with_origin
    multi_user_agent_platfor.AgentToAgent.Projection.resolved
    multi_user_agent_platfor.AgentToAgent.Projection.resolved_row
    multi_user_agent_platfor.AgentToAgent.Projection.replace_destinations
    multi_user_agent_platfor.AgentToAgent.Projection.insert_entries select exists
write_destinations-OnlyChat_example =
    write_destinations-OnlyChat (record central { sessions = desk_session ∷ [] }) "mg-1" chat_group
      (ground (arith, eq_iff "mg-1" "")) refl "desk" "s-1" desk_session [] projected refl refl refl
