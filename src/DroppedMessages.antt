-- ===== src/DroppedMessages.antt =====
-- src/db/dropped-messages.ts: one row for each chat, with how often its messages were dropped.
use multi_user_agent_platfor.Base.{
  ℕ, ◌+◌, Bool, ◌&&◌, Option, [], ◌∷◌, ◌++◌, String, ◌==◌, if◌then◌else◌, or_else, exists,
  update_where,
}
use multi_user_agent_platfor.Types.{Central, UnregisteredSender}

-- What `recordDroppedMessage` is given.
pub record DroppedMessage : Type 0 where
  pub channel_type : String
  pub platform_id : String
  pub user_id : Option String
  pub sender_name : Option String
  pub reason : String
  pub messaging_group_id : Option String
  pub agent_group_id : Option String

abbrev pub same_chat : DroppedMessage → UnregisteredSender → Bool
same_chat m u = u.channel_type == m.channel_type && u.platform_id == m.platform_id

abbrev pub first_drop : ℕ → DroppedMessage → UnregisteredSender
first_drop now m = record {
  channel_type = m.channel_type;
  platform_id = m.platform_id;
  user_id = m.user_id;
  sender_name = m.sender_name;
  reason = m.reason;
  messaging_group_id = m.messaging_group_id;
  agent_group_id = m.agent_group_id;
  message_count = 1;
  first_seen = now;
  last_seen = now;
}

-- ON CONFLICT (channel_type, platform_id) DO UPDATE
abbrev pub next_drop : ℕ → DroppedMessage → UnregisteredSender → UnregisteredSender
next_drop now m u = record u {
  user_id = or_else m.user_id u.user_id;
  sender_name = or_else m.sender_name u.sender_name;
  reason = m.reason;
  message_count = u.message_count + 1;
  last_seen = now;
}

unfoldable pub record_dropped_message : ℕ → DroppedMessage → Central → Central
record_dropped_message now m db = record db {
  unregistered_senders =
      if exists (same_chat m) db.unregistered_senders
      then update_where (same_chat m) (next_drop now m) db.unregistered_senders
      else db.unregistered_senders ++ first_drop now m ∷ [];
}
