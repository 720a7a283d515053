-- ===== src/Wiring/Chats.antt =====
-- The rows of src/db/messaging-groups.ts and src/db/agent-groups.ts. What the router reads of them
-- stands in Router. A deletion of a chat or an agent group, and the listings by name, are left out.
use multi_user_agent_platfor.Base.{
  ℕ, Bool, not, ◌&&◌, ◌||◌, Option, none, some, List, [], ◌∷◌, ◌++◌, String, ◌==◌, if◌then◌else◌,
  coalesce, find, select, exists, delete_where, update_where, Result, ok, err, constraint,
}
use multi_user_agent_platfor.Types.{
  Central, AgentGroup, MessagingGroup, MessagingGroupAgent, UnknownSenderPolicy, EngageMode,
  SenderScope, IgnoredMessagePolicy, SessionMode,
}
use multi_user_agent_platfor.Permissions.Roles.{agent_group_exists}
use multi_user_agent_platfor.Sessions.Table.{messaging_group_exists}
use multi_user_agent_platfor.Router.Inbound.{get_messaging_group_by_platform, agent_count}

-- `none` where no chat of this platform id exists.
unfoldable pub get_messaging_group_with_agent_count :
    Central → String → String → Option (MessagingGroup × ℕ)
get_messaging_group_with_agent_count db channel_type platform_id =
    elim (get_messaging_group_by_platform db channel_type platform_id) [
      | none ↦ none
      | some mg ↦ some (mg, agent_count db mg)
    ]

unfoldable pub get_messaging_groups_by_channel : Central → String → List MessagingGroup
get_messaging_groups_by_channel db channel_type =
    select (λ m. m.channel_type == channel_type) db.messaging_groups

-- What the updates are given; `none` is a field that the caller leaves out.
pub record MessagingGroupUpdates : Type 0 where
  pub name : Option (Option String)
  pub is_group : Option Bool
  pub unknown_sender_policy : Option UnknownSenderPolicy

unfoldable pub update_messaging_group : String → MessagingGroupUpdates → Central → Central
update_messaging_group id updates db = record db {
  messaging_groups =
      update_where (λ m. m.id == id)
        (λ m. record m {
          name = coalesce updates.name m.name;
          is_group = coalesce updates.is_group m.is_group;
          unknown_sender_policy = coalesce updates.unknown_sender_policy m.unknown_sender_policy;
        })
        db.messaging_groups;
}

unfoldable pub set_messaging_group_denied_at : String → Option ℕ → Central → Central
set_messaging_group_denied_at id denied_at db = record db {
  messaging_groups =
      update_where (λ m. m.id == id) (λ m. record m { denied_at = denied_at }) db.messaging_groups;
}

abbrev pub wires : String → String → MessagingGroupAgent → Bool
wires messaging_group_id agent_group_id a =
    a.messaging_group_id == messaging_group_id && a.agent_group_id == agent_group_id

-- The INSERT of `createMessagingGroupAgent`: the id is the key, a pair is wired once.
unfoldable pub insert_wiring : MessagingGroupAgent → Central → Result Central
insert_wiring mga db =
    if exists (λ a. a.id == mga.id || wires mga.messaging_group_id mga.agent_group_id a)
        db.messaging_group_agents
      || not (messaging_group_exists db mga.messaging_group_id)
      || not (agent_group_exists db mga.agent_group_id)
    then err (constraint "messaging_group_agents")
    else ok (record db { messaging_group_agents = db.messaging_group_agents ++ mga ∷ [] })

unfoldable pub get_messaging_group_agent_by_pair :
    Central → String → String → Option MessagingGroupAgent
get_messaging_group_agent_by_pair db messaging_group_id agent_group_id =
    find (wires messaging_group_id agent_group_id) db.messaging_group_agents

unfoldable pub get_messaging_group_agent : Central → String → Option MessagingGroupAgent
get_messaging_group_agent db id = find (λ a. a.id == id) db.messaging_group_agents

pub record WiringUpdates : Type 0 where
  pub engage_mode : Option EngageMode
  pub engage_pattern : Option (Option String)
  pub sender_scope : Option SenderScope
  pub ignored_message_policy : Option IgnoredMessagePolicy
  pub session_mode : Option SessionMode
  pub priority : Option ℕ

unfoldable pub update_messaging_group_agent : String → WiringUpdates → Central → Central
update_messaging_group_agent id updates db = record db {
  messaging_group_agents =
      update_where (λ a. a.id == id)
        (λ a. record a {
          engage_mode = coalesce updates.engage_mode a.engage_mode;
          engage_pattern = coalesce updates.engage_pattern a.engage_pattern;
          sender_scope = coalesce updates.sender_scope a.sender_scope;
          ignored_message_policy = coalesce updates.ignored_message_policy a.ignored_message_policy;
          session_mode = coalesce updates.session_mode a.session_mode;
          priority = coalesce updates.priority a.priority;
        })
        db.messaging_group_agents;
}

unfoldable pub delete_messaging_group_agent : String → Central → Central
delete_messaging_group_agent id db = record db {
  messaging_group_agents = delete_where (λ a. a.id == id) db.messaging_group_agents;
}

-- The JOIN has each chat once, since a pair is wired once.
unfoldable pub get_messaging_groups_by_agent_group : Central → String → List MessagingGroup
get_messaging_groups_by_agent_group db agent_group_id =
    select (λ m. exists (wires m.id agent_group_id) db.messaging_group_agents) db.messaging_groups

unfoldable pub create_agent_group : AgentGroup → Central → Result Central
create_agent_group group db =
    if exists (λ g. g.id == group.id || g.folder == group.folder) db.agent_groups
    then err (constraint "agent_groups")
    else ok (record db { agent_groups = db.agent_groups ++ group ∷ [] })

unfoldable pub get_agent_group_by_folder : Central → String → Option AgentGroup
get_agent_group_by_folder db folder = find (λ g. g.folder == folder) db.agent_groups

-- Of the updates the name; the provider is no column of the model.
unfoldable pub update_agent_group : String → Option String → Central → Central
update_agent_group id name db = record db {
  agent_groups =
      update_where (λ g. g.id == id) (λ g. record g { name = coalesce name g.name })
        db.agent_groups;
}
