-- ===== src/AgentToAgent/Destinations.antt =====
-- src/modules/agent-to-agent/db/agent-destinations.ts: whom an agent group may write to.
use multi_user_agent_platfor.Base.{
  Bool, not, ◌&&◌, ◌||◌, Option, List, [], ◌∷◌, ◌++◌, String, ◌==◌, if◌then◌else◌, find, select,
  exists, delete_where, Result, ok, err, constraint,
}
use multi_user_agent_platfor.Types.{Central, AgentDestination, TargetType, agent, target_is}

abbrev pub to_target : String → TargetType → String → AgentDestination → Bool
to_target agent_group_id target_type target_id d =
    d.agent_group_id == agent_group_id
    && target_is d.target_type target_type
    && d.target_id == target_id

abbrev pub named : String → String → AgentDestination → Bool
named agent_group_id local_name d = d.agent_group_id == agent_group_id && d.local_name == local_name

-- The primary key is the group and the local name.
unfoldable pub create_destination : AgentDestination → Central → Result Central
create_destination row db =
    if exists (named row.agent_group_id row.local_name) db.agent_destinations
      || not (exists (λ g. g.id == row.agent_group_id) db.agent_groups)
    then err (constraint "agent_destinations")
    else ok (record db { agent_destinations = db.agent_destinations ++ row ∷ [] })

unfoldable pub get_destinations : Central → String → List AgentDestination
get_destinations db agent_group_id =
    select (λ d. d.agent_group_id == agent_group_id) db.agent_destinations

unfoldable pub get_destination_by_name : Central → String → String → Option AgentDestination
get_destination_by_name db agent_group_id local_name =
    find (named agent_group_id local_name) db.agent_destinations

unfoldable pub get_destination_by_target :
    Central → String → TargetType → String → Option AgentDestination
get_destination_by_target db agent_group_id target_type target_id =
    find (to_target agent_group_id target_type target_id) db.agent_destinations

unfoldable pub has_destination : Central → String → TargetType → String → Bool
has_destination db agent_group_id target_type target_id =
    exists (to_target agent_group_id target_type target_id) db.agent_destinations

unfoldable pub delete_destination : String → String → Central → Central
delete_destination agent_group_id local_name db = record db {
  agent_destinations = delete_where (named agent_group_id local_name) db.agent_destinations;
}

abbrev pub touches : String → AgentDestination → Bool
touches agent_group_id d =
    d.agent_group_id == agent_group_id
    || (target_is d.target_type agent && d.target_id == agent_group_id)

unfoldable pub delete_all_destinations_touching : String → Central → Central
delete_all_destinations_touching agent_group_id db = record db {
  agent_destinations = delete_where (touches agent_group_id) db.agent_destinations;
}
