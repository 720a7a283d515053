-- ===== src/Tests/Data.antt =====
-- A small platform: one agent group, one group chat, an owner, a member and a stranger.
use Prim.Native.String
use multi_user_agent_platfor.Base.{
  ℕ, zero, suc, true, false, none, some, [], ◌∷◌, String, ok, num_eq, if◌then◌else◌, str, obj,
  field, end,
}
use multi_user_agent_platfor.Engine.{TextEngine}
use multi_user_agent_platfor.Host.{Host}
use multi_user_agent_platfor.Types.{
  Central, UserRole, MessagingGroup, MessagingGroupAgent, InboundEvent, Session,
  PendingSenderApproval, owner, request_approval, mention, known, accumulate, shared, chat, active,
  stopped, agent,
}
use multi_user_agent_platfor.World.{World, pure}

-- Different numbers have different texts.
abbrev pub strokes : ℕ → String
strokes zero = ""
strokes (suc n) = String.◌++◌ "|" (strokes n)

abbrev pub engine : TextEngine
engine = record {
  json_parse = λ text. some (obj (field "text" (str text) end));
  stringify = λ value. "{}";
  trim = λ text. text;
  remove_all = λ pattern text. text;
  lower_case = λ text. text;
  replace_all = λ pattern replacement text. text;
  slice_to = λ n text. text;
  digits = strokes;
  starts_with_slash = λ text. true;
  command_word = λ text. text;
  has_colon = λ text. true;
  regex_test = λ pattern text. some true;
}

abbrev pub suffix : ℕ → String
suffix n = if num_eq n 0 then "a" else "b"

abbrev pub host : Host
host = record {
  engine = engine;
  now = 1000;
  gen = suffix;
  adapter = λ channel_type. none;
  permissions = true;
  intercept = λ event. pure false;
  autowire = λ mg event. pure (false, mg);
  extract_attachments = λ group session id content. ok content;
  outbound_free = λ w. true;
}

abbrev pub owner_row : UserRole
owner_row = record {
  user_id = "tg:owner";
  role = owner;
  agent_group_id = none;
  granted_by = none;
  granted_at = 1;
}

abbrev pub chat_group : MessagingGroup
chat_group = record {
  id = "mg-1";
  channel_type = "tg";
  platform_id = "chat";
  name = none;
  is_group = true;
  unknown_sender_policy = request_approval;
  denied_at = none;
}

abbrev pub wiring : MessagingGroupAgent
wiring = record {
  id = "w-1";
  messaging_group_id = "mg-1";
  agent_group_id = "desk";
  engage_mode = mention;
  engage_pattern = none;
  sender_scope = known;
  ignored_message_policy = accumulate;
  session_mode = shared;
  priority = 0;
}

abbrev pub pending_card : PendingSenderApproval
pending_card = record {
  id = "card";
  messaging_group_id = "mg-1";
  agent_group_id = "desk";
  sender_identity = "tg:stranger";
  sender_name = none;
  original_message = "hello";
  approver_user_id = "tg:owner";
}

abbrev pub central : Central
central = record {
  users =
      record { id = "tg:owner"; kind = "tg"; display_name = none }
      ∷ record { id = "tg:stranger"; kind = "tg"; display_name = none }
      ∷ [];
  user_roles = owner_row ∷ [];
  agent_group_members = [];
  agent_groups =
      record { id = "desk"; name = "Desk"; folder = "desk" }
      ∷ record { id = "worker"; name = "Worker"; folder = "worker" }
      ∷ [];
  messaging_groups = chat_group ∷ [];
  messaging_group_agents = wiring ∷ [];
  sessions = [];
  agent_destinations =
      record {
        agent_group_id = "desk";
        local_name = "w";
        target_type = agent;
        target_id = "worker";
      }
      ∷ [];
  pending_sender_approvals = pending_card ∷ [];
  unregistered_senders = [];
  classification_log = [];
  pending_questions = [];
  pending_approvals = [];
  pending_channel_approvals = [];
}

abbrev pub world : World
world = record {
  central = central;
  inbox = [];
  outbox = [];
  effects = [];
  draws = 0;
  awaiting_names = [];
}

abbrev pub event : InboundEvent
event = record {
  channel_type = "tg";
  platform_id = "chat";
  thread_id = none;
  message = record {
    id = "m-1";
    kind = chat;
    content = "hello";
    timestamp = 900;
    is_mention = true;
    is_group = true;
  };
  reply_to = none;
}

abbrev pub desk_session : Session
desk_session = record {
  id = "s-1";
  agent_group_id = "desk";
  messaging_group_id = some "mg-1";
  thread_id = none;
  owner_user_id = none;
  root_session_id = some "s-1";
  status = active;
  container_status = stopped;
  last_active = none;
  archived_at = none;
  spawn_depth = 0;
  created_at = 1;
}
