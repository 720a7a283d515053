-- ===== src/Permissions/Gates.antt =====
-- The hooks that src/modules/permissions/index.ts registers with the router: who the sender is, and
-- whether the message may reach an agent group.
use Prim.Native.String
use multi_user_agent_platfor.Base.{
  ℕ, Bool, true, false, not, Option, none, some, [], ◌∷◌, ◌++◌, String, ◌==◌, if◌then◌else◌, truthy,
  coalesce, is_null, or_else, namespaced, update_where, ok, Json, property, as_string, object_text,
  bind_text, str, obj, field, end,
}
use multi_user_agent_platfor.Engine.{TextEngine}
use multi_user_agent_platfor.Types.{
  Central, User, MessagingGroup, MessagingGroupAgent, InboundEvent, UnknownSenderPolicy, strict,
  request_approval, public, is_public, scope_is_all,
}
use multi_user_agent_platfor.World.{
  M, pure, lift, emit, on_central, ◌>>=◌, ◌>>◌, request_sender_approval,
}
use multi_user_agent_platfor.DroppedMessages.{record_dropped_message}
use multi_user_agent_platfor.Permissions.Roles.{user_exists, get_user}
use multi_user_agent_platfor.Permissions.Access.{
  AccessDecision, allowed, denied, DenyReason, unknown_user, not_member, can_access_agent_group,
}

-- INSERT ... ON CONFLICT(id) DO UPDATE of src/modules/permissions/db/users.ts.
unfoldable pub upsert_user : User → Central → Central
upsert_user u db = record db {
  users =
      if user_exists db u.id
      then update_where (λ v. v.id == u.id)
          (λ v. record v { display_name = or_else u.display_name v.display_name }) db.users
      else db.users ++ u ∷ [];
}

pub data AccessGateResult : Type 0 where
  allow : AccessGateResult
  refuse : (reason : String) → AccessGateResult

abbrev pub passes : AccessGateResult → Bool
passes allow = true
passes (refuse _) = false

abbrev pub deny_text : DenyReason → String
deny_text unknown_user = "unknown_user"
deny_text not_member = "not_member"

abbrev pub policy_text : UnknownSenderPolicy → String
policy_text strict = "strict"
policy_text request_approval = "request_approval"
policy_text public = "public"

module _ (engine : TextEngine) (now : ℕ) where
  unfoldable pub safe_parse_content : String → Json
  safe_parse_content raw = elim (engine.json_parse raw) [
    | none ↦ obj (field "text" (str raw) end)
    | some value ↦ value
  ]

  -- The user row is written on first sight of the id.
  unfoldable pub ensure_user : InboundEvent → String → Option String → M (Option String)
  ensure_user event raw name =
      let user_id = if engine.has_colon raw then raw else namespaced event.channel_type raw in
      do
        on_central (λ db. ok (
            if is_null (get_user db user_id)
            then upsert_user
                (record { id = user_id; kind = event.channel_type; display_name = name }) db
            else db))
        pure (some user_id)

  unfoldable pub identify : InboundEvent → Json → M (Option String)
  identify event content = do
    sender_id ← lift (property "senderId" content)
    sender ← lift (property "sender" content)
    author ← lift (property "author" content)
    sender_name ← lift (property "senderName" content)
    let raw =
        or_else (as_string sender_id) (or_else (as_string sender) (object_text "userId" author))
    let name =
        or_else (as_string sender_name)
          (or_else (object_text "fullName" author) (object_text "userName" author))
    if truthy raw then ensure_user event (coalesce raw "") name else pure none

  unfoldable pub extract_and_upsert_user : InboundEvent → M (Option String)
  extract_and_upsert_user event = elim (engine.json_parse event.message.content) [
    | none ↦ pure none
    | some content ↦ identify event content
  ]

  unfoldable pub drop_unknown :
      MessagingGroup → Option String → String → InboundEvent → Option Json → M (Option String)
  drop_unknown mg user_id agent_group_id event sender = do
    sender_name ← lift (bind_text sender)
    on_central (λ db. ok (
        record_dropped_message now
          (record {
            channel_type = event.channel_type;
            platform_id = event.platform_id;
            user_id = user_id;
            sender_name = sender_name;
            reason = String.◌++◌ "unknown_sender_" (policy_text mg.unknown_sender_policy);
            messaging_group_id = some mg.id;
            agent_group_id = some agent_group_id;
          })
          db))
    pure sender_name

  -- The switch of `handleUnknownSender`.
  unfoldable pub drop_by_policy :
      UnknownSenderPolicy
      → MessagingGroup
      → Option String
      → String
      → InboundEvent
      → Option Json
      → M (Unit {0})
  drop_by_policy strict mg user_id agent_group_id event sender = do
    _ ← drop_unknown mg user_id agent_group_id event sender
    pure tt
  drop_by_policy request_approval mg user_id agent_group_id event sender = do
    sender_name ← drop_unknown mg user_id agent_group_id event sender
    if truthy user_id
        then emit
            (request_sender_approval mg.id agent_group_id (coalesce user_id "") sender_name event)
        else pure tt
  drop_by_policy public mg user_id agent_group_id event sender = pure tt

  unfoldable pub handle_unknown_sender :
      MessagingGroup → Option String → String → InboundEvent → M (Unit {0})
  handle_unknown_sender mg user_id agent_group_id event = do
    sender ← lift (property "sender" (safe_parse_content event.message.content))
    drop_by_policy mg.unknown_sender_policy mg user_id agent_group_id event sender

  unfoldable pub by_decision :
      AccessDecision → InboundEvent → Option String → MessagingGroup → String → M AccessGateResult
  by_decision (allowed _) event user_id mg agent_group_id = pure allow
  by_decision (denied reason) event user_id mg agent_group_id = do
    handle_unknown_sender mg user_id agent_group_id event
    pure (refuse (deny_text reason))

  unfoldable pub access_gate :
      InboundEvent → Option String → MessagingGroup → String → M AccessGateResult
  access_gate event user_id mg agent_group_id w =
      if is_public mg.unknown_sender_policy
      then pure allow w
      else if not (truthy user_id)
      then (do handle_unknown_sender mg none agent_group_id event; pure (refuse "unknown_user")) w
      else by_decision (can_access_agent_group w.central (coalesce user_id "") agent_group_id) event
          user_id mg agent_group_id w

abbrev pub scope_result : AccessDecision → AccessGateResult
scope_result (allowed _) = allow
scope_result (denied reason) = refuse (String.◌++◌ "sender_scope_" (deny_text reason))

-- Reads only.
unfoldable pub sender_scope_gate : Central → Option String → MessagingGroupAgent → AccessGateResult
sender_scope_gate db user_id agent =
    if scope_is_all agent.sender_scope
    then allow
    else if not (truthy user_id)
    then refuse "unknown_user_scope"
    else scope_result (can_access_agent_group db (coalesce user_id "") agent.agent_group_id)
