-- ===== src/AgentToAgent/Projection.antt =====
-- src/modules/agent-to-agent/write-destinations.ts and replaceDestinations of src/db/session-db.ts: the
-- destinations that a session's container sees.
use Prim.Native.String
use multi_user_agent_platfor.Base.{
  Bool, not, ◌&&◌, Option, none, some, List, [], ◌∷◌, ◌++◌, String, ◌==◌, if◌then◌else◌, truthy,
  coalesce, exists, Result, ok, err, constraint,
}
use multi_user_agent_platfor.Types.{
  Central, AgentGroup, MessagingGroup, Session, AgentDestination, TargetType, channel, agent,
  target_is,
}
use multi_user_agent_platfor.Sessions.Table.{get_session}
use multi_user_agent_platfor.Router.Inbound.{get_messaging_group}
use multi_user_agent_platfor.Router.Fanout.{get_agent_group}
use multi_user_agent_platfor.AgentToAgent.Destinations.{get_destinations}

pub record DestinationRow : Type 0 where
  pub name : String
  pub display_name : String
  pub target_type : TargetType
  pub channel_type : Option String
  pub platform_id : Option String
  pub agent_group_id : Option String

-- The table's key is the name.
unfoldable pub insert_entries :
    List DestinationRow → List DestinationRow → Result (List DestinationRow)
insert_entries [] rows = ok rows
insert_entries (e ∷ entries) rows =
    let rest = insert_entries entries (rows ++ e ∷ []) in
    if exists (λ r. r.name == e.name) rows then err (constraint "destinations") else rest

-- In one transaction: what is refused leaves the table as it was.
unfoldable pub replace_destinations : List DestinationRow → Result (List DestinationRow)
replace_destinations entries = insert_entries entries []

abbrev pub chat_entry : String → String → MessagingGroup → DestinationRow
chat_entry name display_name mg = record {
  name = name;
  display_name = display_name;
  target_type = channel;
  channel_type = some mg.channel_type;
  platform_id = some mg.platform_id;
  agent_group_id = none;
}

abbrev pub agent_entry : String → AgentGroup → DestinationRow
agent_entry name ag = record {
  name = name;
  display_name = ag.name;
  target_type = agent;
  channel_type = none;
  platform_id = none;
  agent_group_id = some ag.id;
}

abbrev pub is_chat : DestinationRow → Bool
is_chat r = target_is r.target_type channel

module _ (db : Central) (session_mg : Option String) where
  abbrev pub for_channel : AgentDestination → Option MessagingGroup → Option DestinationRow
  for_channel row none = none
  for_channel row (some mg) =
      if truthy session_mg && not (row.target_id == coalesce session_mg "")
      then none
      else some (chat_entry row.local_name (coalesce mg.name row.local_name) mg)

  abbrev pub for_agent : AgentDestination → Option AgentGroup → Option DestinationRow
  for_agent row none = none
  for_agent row (some ag) = some (agent_entry row.local_name ag)

  -- `none` where the loop goes on.
  unfoldable pub resolved_row : AgentDestination → Option DestinationRow
  resolved_row row =
      if target_is row.target_type channel
      then for_channel row (get_messaging_group db row.target_id)
      else for_agent row (get_agent_group db row.target_id)

  abbrev pub push : Option DestinationRow → List DestinationRow → List DestinationRow
  push none rows = rows
  push (some r) rows = r ∷ rows

  unfoldable pub resolved : List AgentDestination → List DestinationRow
  resolved [] = []
  resolved (row ∷ rows) = push (resolved_row row) (resolved rows)

  abbrev pub unshift_origin : Option MessagingGroup → List DestinationRow → List DestinationRow
  unshift_origin none rows = rows
  unshift_origin (some mg) rows =
      chat_entry "origin"
        (coalesce mg.name (String.◌++◌ mg.channel_type (String.◌++◌ ":" mg.platform_id))) mg
      ∷ rows

  -- A session of a chat without a destination for it sees the chat as `origin`.
  unfoldable pub with_origin : List DestinationRow → List DestinationRow
  with_origin rows =
      if truthy session_mg && not (exists is_chat rows)
      then unshift_origin (get_messaging_group db (coalesce session_mg "")) rows
      else rows

abbrev pub chat_of : Option Session → Option String
chat_of none = none
chat_of (some s) = s.messaging_group_id

-- The entries that are written for a session.
unfoldable pub destination_entries : Central → String → String → List DestinationRow
destination_entries db agent_group_id session_id =
    let session_mg = chat_of (get_session db session_id) in
    with_origin db session_mg (resolved db session_mg (get_destinations db agent_group_id))

-- `there` is whether the session's inbound.db exists; the old rows stay where it does not.
unfoldable pub write_destinations :
    Bool → Central → String → String → List DestinationRow → Result (List DestinationRow)
write_destinations there db agent_group_id session_id old =
    if there
    then replace_destinations (destination_entries db agent_group_id session_id)
    else ok old
