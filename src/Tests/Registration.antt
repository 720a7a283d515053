-- ===== src/Tests/Registration.antt =====
-- The registration of a channel and the mounts of a container at concrete inputs.
use multi_user_agent_platfor.Base.{
  ℕ, Bool, true, false, ◌||◌, Option, none, some, List, [], ◌∷◌, String, ◌==◌, ◌≡◌, ◌≢◌, refl, sym,
  ap, ◌∙◌, arith, Result, ok, err, All, length, if◌then◌else◌,
}
use multi_user_agent_platfor.Types.{PendingChannelApproval}
use multi_user_agent_platfor.World.{World}
use multi_user_agent_platfor.Permissions.Gates.{extract_and_upsert_user}
use multi_user_agent_platfor.Permissions.SenderApproval.{ResponsePayload, clicker_id}
use multi_user_agent_platfor.Router.Fanout.{get_agent_group}
use multi_user_agent_platfor.ChannelApproval.Rows.{get_pending_channel_approval}
use multi_user_agent_platfor.ChannelApproval.Response.{
  Desk, may_decide, handle_channel_approval_response,
}
use multi_user_agent_platfor.ChannelApproval.Authority.{
  AdmittedTo, channel_response-needs_authority, connect-admits,
}
use multi_user_agent_platfor.MountSecurity.Allowlist.{AllowlistFile, AllowlistCache, absent, parsed}
use multi_user_agent_platfor.MountSecurity.Validate.{
  Paths, AdditionalMount, validate_additional_mounts,
}
use multi_user_agent_platfor.MountSecurity.Safety.{SafeUnder, validate_additional_mounts-Safe}
use multi_user_agent_platfor.Tests.Data.{host, central, world, event}

abbrev desk : Desk
desk = record {
  host = host;
  ensure_user_dm = λ user. none;
  adapter_ready = true;
  prompt_sent = true;
  parse_event = λ text. some event;
  after_prefix = λ prefix text. if text == "connect:desk" then some "desk" else none;
  replay = λ e w. w;
}

abbrev card : PendingChannelApproval
card = record {
  messaging_group_id = "mg-1";
  agent_group_id = "desk";
  original_message = "event";
  approver_user_id = "tg:owner";
  created_at = 4;
  title = "new channel";
  options = [];
}

-- A chat without an agent, whose card is pending.
abbrev asked_world : World
asked_world = record world {
  central = record central { messaging_group_agents = []; pending_channel_approvals = card ∷ [] };
}

abbrev click : String → ResponsePayload
click value = record {
  question_id = "mg-1";
  value = value;
  user_id = some "owner";
  channel_type = "tg";
}

abbrev connected : Result Bool × World
connected = handle_channel_approval_response desk (click "connect:desk") asked_world

claimed : connected.0 ≡ ok true
unfolding multi_user_agent_platfor.ChannelApproval.Response.answer_card
    multi_user_agent_platfor.Base.find multi_user_agent_platfor.Base.namespaced
    multi_user_agent_platfor.ChannelApproval.Response.by_value
    multi_user_agent_platfor.ChannelApproval.Response.connect
    multi_user_agent_platfor.ChannelApproval.Response.connect_to
    multi_user_agent_platfor.ChannelApproval.Response.connect_event
    multi_user_agent_platfor.ChannelApproval.Response.wire_and_replay
    multi_user_agent_platfor.Router.Deliver.fresh_id
    multi_user_agent_platfor.Wiring.Wire.create_messaging_group_agent
    multi_user_agent_platfor.Wiring.Chats.insert_wiring multi_user_agent_platfor.Base.exists
    multi_user_agent_platfor.Sessions.Table.messaging_group_exists
    multi_user_agent_platfor.AgentToAgent.Destinations.create_destination
    multi_user_agent_platfor.AgentToAgent.Destinations.get_destination_by_target
    multi_user_agent_platfor.Base.delete_where multi_user_agent_platfor.Base.update_where
    multi_user_agent_platfor.Base.lookup_field
    multi_user_agent_platfor.ChannelApproval.Rows.delete_pending_channel_approval
    multi_user_agent_platfor.Permissions.Gates.ensure_user
    multi_user_agent_platfor.Permissions.Gates.identify
    multi_user_agent_platfor.Permissions.Gates.upsert_user
    multi_user_agent_platfor.Permissions.Members.add_member
    multi_user_agent_platfor.Permissions.Roles.agent_group_exists
    multi_user_agent_platfor.Permissions.Roles.user_exists
    multi_user_agent_platfor.Permissions.Roles.get_user
    multi_user_agent_platfor.Wiring.Wire.ensure_destination
    multi_user_agent_platfor.Wiring.Wire.add_destination
    multi_user_agent_platfor.Wiring.FreeName.free_name
    multi_user_agent_platfor.Wiring.FreeName.free_name_from
    multi_user_agent_platfor.Wiring.FreeName.normalize_name
    multi_user_agent_platfor.Router.Inbound.get_messaging_group handle_channel_approval_response
    get_pending_channel_approval may_decide get_agent_group extract_and_upsert_user
claimed = refl

connect-admits_example :
    (v : World) × (u : World) × (sender : Option String) × ((extract_and_upsert_user host.engine
        host.now event u).0
      ≡ ok sender)
    × (connected.1 ≡ v)
    × AdmittedTo desk v.central "desk" sender
    × (get_pending_channel_approval v.central "mg-1" ≡ none)
unfolding get_pending_channel_approval multi_user_agent_platfor.Base.find may_decide
    multi_user_agent_platfor.Base.namespaced get_agent_group
connect-admits_example =
    connect-admits desk (click "connect:desk") asked_world connected.1 card "desk"
      (record { id = "desk"; name = "Desk"; folder = "desk" }) event true refl refl refl refl refl
      refl (ap (λ r. (r, connected.1)) claimed)

abbrev rejected : World
rejected = (handle_channel_approval_response desk (click "reject") asked_world).1

gone : length rejected.central.pending_channel_approvals ≡ 0
unfolding handle_channel_approval_response
    multi_user_agent_platfor.ChannelApproval.Response.answer_card get_pending_channel_approval
    multi_user_agent_platfor.Base.find may_decide multi_user_agent_platfor.Base.namespaced
    multi_user_agent_platfor.ChannelApproval.Response.by_value
    multi_user_agent_platfor.ChannelApproval.Response.reject_channel
    multi_user_agent_platfor.ChannelApproval.Rows.delete_pending_channel_approval
    multi_user_agent_platfor.Base.delete_where
    multi_user_agent_platfor.Wiring.Chats.set_messaging_group_denied_at
gone = refl

one-≢-zero : ◌≢◌ {A = ℕ} 1 0
one-≢-zero e = ground arith

moved : rejected ≢ asked_world
moved e = one-≢-zero (sym (ap (λ w. length w.central.pending_channel_approvals) e) ∙ gone)

channel_response-needs_authority_example :
    (row : PendingChannelApproval) × (get_pending_channel_approval asked_world.central "mg-1"
      ≡ some row)
    × (may_decide asked_world.central (clicker_id (click "reject")) row ≡ true)
channel_response-needs_authority_example =
    channel_response-needs_authority desk (click "reject") asked_world moved

abbrev paths : Paths
paths = record {
  home = "/home/a";
  join = λ directory name. name;
  resolve = λ p. p;
  basename = λ p. "repo";
  relative = λ from to. "repo";
  is_absolute = λ p. false;
  components = λ p. p ∷ [];
  real_path = λ p. some p;
  includes = λ text part. text == part;
  starts_with = λ text prefix. false;
  slice_from_two = λ text. text;
  trim = λ text. text;
}

abbrev fresh_cache : AllowlistCache
fresh_cache = record { allowlist = none; load_failed = false }

abbrev wanted : List (AllowlistFile × AdditionalMount)
wanted =
    (absent, record { host_path = "/srv/repo"; container_path = none; readonly = none })
    ∷ (
      parsed (some (record { path = "/srv"; allow_read_write = true; description = none } ∷ []))
          (some []),
      record { host_path = "/srv/repo"; container_path = none; readonly = some false },
    )
    ∷ []

mounted : length (validate_additional_mounts paths fresh_cache wanted).0 ≡ 1
unfolding validate_additional_mounts multi_user_agent_platfor.MountSecurity.Validate.validate_mount
    multi_user_agent_platfor.MountSecurity.Validate.validate_with
    multi_user_agent_platfor.MountSecurity.Allowlist.load_mount_allowlist
    multi_user_agent_platfor.MountSecurity.Allowlist.load_with
    multi_user_agent_platfor.MountSecurity.Allowlist.read_allowlist
    multi_user_agent_platfor.MountSecurity.Validate.is_valid_container_path
    multi_user_agent_platfor.MountSecurity.Validate.validate_real_path
    multi_user_agent_platfor.MountSecurity.Validate.matches_blocked_pattern
    multi_user_agent_platfor.MountSecurity.Allowlist.merge_patterns
    multi_user_agent_platfor.Base.exists multi_user_agent_platfor.MountSecurity.Validate.expand_path
    multi_user_agent_platfor.MountSecurity.Validate.find_allowed_root
mounted = refl

validate_additional_mounts-Safe_example :
    SafeUnder paths
      (validate_additional_mounts paths fresh_cache wanted).1.allowlist
      (validate_additional_mounts paths fresh_cache wanted).0
validate_additional_mounts-Safe_example =
    validate_additional_mounts-Safe paths fresh_cache wanted tt
