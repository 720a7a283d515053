-- ===== src/Types.antt =====
-- The rows of the central database and of the session databases (src/types.ts, src/db/schema.ts,
-- src/channels/adapter.ts). Ids and free texts are strings, instants are milliseconds as numbers.
use multi_user_agent_platfor.Base.{ℕ, Bool, true, false, List, Option, String, Json}

pub record AgentGroup : Type 0 where
  pub id : String
  pub name : String
  pub folder : String

pub data UnknownSenderPolicy : Type 0 where
  strict request_approval public : UnknownSenderPolicy

pub record MessagingGroup : Type 0 where
  pub id : String
  pub channel_type : String
  pub platform_id : String
  pub name : Option String
  pub is_group : Bool
  pub unknown_sender_policy : UnknownSenderPolicy
  pub denied_at : Option ℕ

pub record User : Type 0 where
  pub id : String
  pub kind : String
  pub display_name : Option String

pub data UserRoleKind : Type 0 where
  owner admin : UserRoleKind

pub record UserRole : Type 0 where
  pub user_id : String
  pub role : UserRoleKind
  pub agent_group_id : Option String
  pub granted_by : Option String
  pub granted_at : ℕ

pub record AgentGroupMember : Type 0 where
  pub user_id : String
  pub agent_group_id : String
  pub added_by : Option String
  pub added_at : ℕ

pub data EngageMode : Type 0 where
  pattern mention mention_sticky : EngageMode

pub data SenderScope : Type 0 where
  all known : SenderScope

pub data IgnoredMessagePolicy : Type 0 where
  drop accumulate : IgnoredMessagePolicy

pub data SessionMode : Type 0 where
  shared per_thread agent_shared per_user per_user_per_thread : SessionMode

pub record MessagingGroupAgent : Type 0 where
  pub id : String
  pub messaging_group_id : String
  pub agent_group_id : String
  pub engage_mode : EngageMode
  pub engage_pattern : Option String
  pub sender_scope : SenderScope
  pub ignored_message_policy : IgnoredMessagePolicy
  pub session_mode : SessionMode
  pub priority : ℕ

pub data SessionStatus : Type 0 where
  active closed archived : SessionStatus

pub data ContainerStatus : Type 0 where
  running idle stopped : ContainerStatus

pub record Session : Type 0 where
  pub id : String
  pub agent_group_id : String
  pub messaging_group_id : Option String
  pub thread_id : Option String
  pub owner_user_id : Option String
  pub root_session_id : Option String
  pub status : SessionStatus
  pub container_status : ContainerStatus
  pub last_active : Option ℕ
  pub archived_at : Option ℕ
  pub spawn_depth : ℕ
  pub created_at : ℕ

pub data TargetType : Type 0 where
  channel agent : TargetType

pub record AgentDestination : Type 0 where
  pub agent_group_id : String
  pub local_name : String
  pub target_type : TargetType
  pub target_id : String

pub record PendingSenderApproval : Type 0 where
  pub id : String
  pub messaging_group_id : String
  pub agent_group_id : String
  pub sender_identity : String
  pub sender_name : Option String
  pub original_message : String
  pub approver_user_id : String

-- An option of a question, as src/channels/ask-question.ts normalizes it; `none` is undefined.
pub record NormalizedOption : Type 0 where
  pub label : Option Json
  pub selected_label : Option Json
  pub value : Option Json

pub record PendingChannelApproval : Type 0 where
  pub messaging_group_id : String
  pub agent_group_id : String
  pub original_message : String
  pub approver_user_id : String
  pub created_at : ℕ
  pub title : String
  pub options : List NormalizedOption

pub record UnregisteredSender : Type 0 where
  pub channel_type : String
  pub platform_id : String
  pub user_id : Option String
  pub sender_name : Option String
  pub reason : String
  pub messaging_group_id : Option String
  pub agent_group_id : Option String
  pub message_count : ℕ
  pub first_seen : ℕ
  pub last_seen : ℕ

-- `kind` of a row of messages_in
pub data MessageInKind : Type 0 where
  chat chat_sdk task webhook system : MessageInKind

pub data MessageInStatus : Type 0 where
  pending processing completed failed paused : MessageInStatus

-- A row of messages_in, with the columns of the schema that the host reads or writes.
pub record MessageIn : Type 0 where
  pub id : String
  pub seq : ℕ
  pub kind : MessageInKind
  pub timestamp : ℕ
  pub status : MessageInStatus
  pub process_after : Option ℕ
  pub recurrence : Option String
  pub series_id : Option String
  pub tries : ℕ
  pub trigger : Bool
  pub platform_id : Option String
  pub channel_type : Option String
  pub thread_id : Option String
  pub content : String
  pub source_session_id : Option String
  pub origin_user_id : Option String

-- A row of messages_out. `kind` is a free text there.
pub record MessageOut : Type 0 where
  pub id : String
  pub in_reply_to : Option String
  pub timestamp : ℕ
  pub deliver_after : Option ℕ
  pub kind : String
  pub platform_id : Option String
  pub channel_type : Option String
  pub thread_id : Option String
  pub content : String
  pub origin_user_id : Option String

pub record DeliveryAddress : Type 0 where
  pub channel_type : String
  pub platform_id : String
  pub thread_id : Option String

-- `isMention` and `isGroup` are false where they are undefined: they are only tested.
pub record InboundMessage : Type 0 where
  pub id : String
  pub kind : MessageInKind
  pub content : String
  pub timestamp : ℕ
  pub is_mention : Bool
  pub is_group : Bool

pub record InboundEvent : Type 0 where
  pub channel_type : String
  pub platform_id : String
  pub thread_id : Option String
  pub message : InboundMessage
  pub reply_to : Option DeliveryAddress

-- A row of classification_log, with the columns that the host compares or writes.
pub record ClassificationRow : Type 0 where
  pub classification_id : Option String
  pub session_id : Option String
  pub action : String
  pub outcome_ref : Option String

pub record PendingQuestion : Type 0 where
  pub question_id : String
  pub session_id : String
  pub message_out_id : String
  pub platform_id : Option String
  pub channel_type : Option String
  pub thread_id : Option String
  pub title : String
  pub options : List NormalizedOption
  pub created_at : ℕ

pub data PendingApprovalStatus : Type 0 where
  waiting approved rejected expired : PendingApprovalStatus

-- `waiting` is the status 'pending'.
pub record PendingApproval : Type 0 where
  pub approval_id : String
  pub session_id : Option String
  pub request_id : String
  pub action : String
  pub payload : String
  pub created_at : ℕ
  pub agent_group_id : Option String
  pub channel_type : Option String
  pub platform_id : Option String
  pub platform_message_id : Option String
  pub expires_at : Option ℕ
  pub status : PendingApprovalStatus
  pub title : String
  pub options_json : String

-- The tests that the code makes by `===`.
abbrev pub role_is : UserRoleKind → UserRoleKind → Bool
role_is owner owner = true
role_is admin admin = true
role_is _ _ = false

abbrev pub is_public : UnknownSenderPolicy → Bool
is_public public = true
is_public _ = false

abbrev pub is_active : SessionStatus → Bool
is_active active = true
is_active _ = false

abbrev pub is_archived : SessionStatus → Bool
is_archived archived = true
is_archived _ = false

abbrev pub is_stopped : ContainerStatus → Bool
is_stopped stopped = true
is_stopped _ = false

abbrev pub scope_is_all : SenderScope → Bool
scope_is_all all = true
scope_is_all known = false

abbrev pub accumulates : IgnoredMessagePolicy → Bool
accumulates accumulate = true
accumulates drop = false

abbrev pub is_sticky : EngageMode → Bool
is_sticky mention_sticky = true
is_sticky _ = false

abbrev pub target_is : TargetType → TargetType → Bool
target_is channel channel = true
target_is agent agent = true
target_is _ _ = false

abbrev pub status_is : MessageInStatus → MessageInStatus → Bool
status_is pending pending = true
status_is processing processing = true
status_is completed completed = true
status_is failed failed = true
status_is paused paused = true
status_is _ _ = false

abbrev pub kind_is_task : MessageInKind → Bool
kind_is_task task = true
kind_is_task _ = false

-- `kind === 'chat' || kind === 'chat-sdk'`
abbrev pub kind_is_chat : MessageInKind → Bool
kind_is_chat chat = true
kind_is_chat chat_sdk = true
kind_is_chat _ = false

-- router.ts and session-manager.ts have a function of this name each.
abbrev pub is_user_scoped_session_mode : SessionMode → Bool
is_user_scoped_session_mode per_user = true
is_user_scoped_session_mode per_user_per_thread = true
is_user_scoped_session_mode _ = false

-- The tables of the central database that the modelled code reads and writes.
pub record Central : Type 0 where
  pub users : List User
  pub user_roles : List UserRole
  pub agent_group_members : List AgentGroupMember
  pub agent_groups : List AgentGroup
  pub messaging_groups : List MessagingGroup
  pub messaging_group_agents : List MessagingGroupAgent
  pub sessions : List Session
  pub agent_destinations : List AgentDestination
  pub pending_sender_approvals : List PendingSenderApproval
  pub unregistered_senders : List UnregisteredSender
  pub classification_log : List ClassificationRow
  pub pending_questions : List PendingQuestion
  pub pending_approvals : List PendingApproval
  pub pending_channel_approvals : List PendingChannelApproval
