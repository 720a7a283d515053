-- ===== src/Wiring/Wire.antt =====
-- `createMessagingGroupAgent` of src/db/messaging-groups.ts and `createNewAgentGroup` of
-- src/modules/permissions/channel-approval.ts, where the agent-to-agent module is installed.
use Prim.Native.String
use multi_user_agent_platfor.Base.{
  ◌+◌, Option, none, some, String, ◌==◌, if◌then◌else◌, is_null, exists, length, thrown,
}
use multi_user_agent_platfor.Engine.{TextEngine}
use multi_user_agent_platfor.Host.{Host}
use multi_user_agent_platfor.Types.{
  Central, AgentGroup, MessagingGroup, MessagingGroupAgent, channel,
}
use multi_user_agent_platfor.World.{M, pure, throw, on_central, ◌>>=◌, ◌>>◌}
use multi_user_agent_platfor.AgentToAgent.Destinations.{
  named, create_destination, get_destination_by_target,
}
use multi_user_agent_platfor.Router.Inbound.{get_messaging_group}
use multi_user_agent_platfor.Router.Deliver.{fresh_id}
use multi_user_agent_platfor.Wiring.FreeName.{normalize_name, free_name}
use multi_user_agent_platfor.Wiring.Chats.{insert_wiring, create_agent_group}

module _ (engine : TextEngine) where
  -- `mg.name || ...`
  abbrev pub name_or : Option String → String → String
  name_or none other = other
  name_or (some name) other = if name == "" then other else name

  abbrev pub base_name : MessagingGroup → MessagingGroupAgent → String
  base_name mg mga = normalize_name engine (
      name_or mg.name
        (String.◌++◌ mg.channel_type (String.◌++◌ "-" (engine.slice_to 8 mga.messaging_group_id))))

  -- The fuel is the number of destinations and one.
  abbrev pub free_local_name : Central → MessagingGroup → MessagingGroupAgent → Option String
  free_local_name db mg mga =
      free_name engine (λ s. exists (named mga.agent_group_id s) db.agent_destinations)
        (length db.agent_destinations + 1) (base_name mg mga)

  abbrev pub insert_destination : Option String → MessagingGroupAgent → M (Unit {0})
  insert_destination none mga = throw (thrown "no free name")
  insert_destination (some name) mga = on_central (
      create_destination (record {
        agent_group_id = mga.agent_group_id;
        local_name = name;
        target_type = channel;
        target_id = mga.messaging_group_id;
      }))

  unfoldable pub add_destination : Option MessagingGroup → MessagingGroupAgent → M (Unit {0})
  add_destination none mga w = pure tt w
  add_destination (some mg) mga w = insert_destination (free_local_name w.central mg mga) mga w

  unfoldable pub ensure_destination : MessagingGroupAgent → M (Unit {0})
  ensure_destination mga w =
      if is_null
        (get_destination_by_target w.central mga.agent_group_id channel mga.messaging_group_id)
      then add_destination (get_messaging_group w.central mga.messaging_group_id) mga w
      else pure tt w

  unfoldable pub create_messaging_group_agent : MessagingGroupAgent → M (Unit {0})
  create_messaging_group_agent mga = do on_central (insert_wiring mga); ensure_destination mga

module _ (host : Host) where
  abbrev pub insert_agent_group : Option String → String → M AgentGroup
  insert_agent_group none name = throw (thrown "no free folder")
  insert_agent_group (some folder) name = do
    id ← fresh_id host "ag-"
    on_central (create_agent_group (record { id = id; name = name; folder = folder }))
    pure (record { id = id; name = name; folder = folder })

  -- Its directory is not modelled. The fuel is the number of agent groups and one.
  unfoldable pub create_new_agent_group : String → M AgentGroup
  create_new_agent_group name w =
      insert_agent_group
        (free_name host.engine (λ s. exists (λ g. g.folder == s) w.central.agent_groups)
          (length w.central.agent_groups + 1) (normalize_name host.engine name))
        name w
