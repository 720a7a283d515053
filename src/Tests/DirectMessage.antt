-- ===== src/Tests/DirectMessage.antt =====
-- Direct messages at a concrete input.
use multi_user_agent_platfor.Base.{
  true, false, none, some, [], ◌∷◌, ◌++◌, ◌≡◌, refl, ok, err, thrown, exists, find,
}
use multi_user_agent_platfor.Types.{MessagingGroup, strict}
use multi_user_agent_platfor.DirectMessage.Resolve.{Contacts, Channels, ensure_user_dm}
use multi_user_agent_platfor.DirectMessage.Repeat.{ensure_user_dm-repeat}
use multi_user_agent_platfor.Tests.Data.{central}

abbrev channels : Channels
channels = record {
  now = 7;
  gen = λ n. "mg-new";
  registered = λ channel. true;
  open_dm = λ channel. some (λ handle. ok "D-1");
  split_at_colon = λ id. some ("tg", "owner");
}

abbrev before : Contacts
before = record { central = central; user_dms = []; draws = 0 }

abbrev dm : MessagingGroup
dm = record {
  id = "mg-new";
  channel_type = "tg";
  platform_id = "D-1";
  name = none;
  is_group = false;
  unknown_sender_policy = strict;
  denied_at = none;
}

abbrev after : Contacts
after = record {
  central = record central { messaging_groups = central.messaging_groups ++ dm ∷ [] };
  user_dms =
      record {
        user_id = "tg:owner";
        channel_type = "tg";
        messaging_group_id = "mg-new";
        resolved_at = 7;
      }
      ∷ [];
  draws = 1;
}

-- Later, and with an adapter that answers nothing.
abbrev later : Channels
later = record channels {
  now = 9;
  gen = λ n. "mg-other";
  open_dm = λ channel. some (λ handle. err (thrown "offline"));
}

ensure_user_dm-repeat_example : ensure_user_dm later "tg:owner" after ≡ (ok (some dm), after)
unfolding ensure_user_dm multi_user_agent_platfor.DirectMessage.Resolve.parse_user_id
    multi_user_agent_platfor.DirectMessage.Resolve.resolve_dm_platform_id
    multi_user_agent_platfor.DirectMessage.Resolve.find_or_create
    multi_user_agent_platfor.DirectMessage.Resolve.remember
    multi_user_agent_platfor.DirectMessage.Resolve.get_user_dm
    multi_user_agent_platfor.DirectMessage.Resolve.upsert_user_dm
    multi_user_agent_platfor.Permissions.Roles.get_user
    multi_user_agent_platfor.Router.Inbound.get_messaging_group
    multi_user_agent_platfor.Router.Inbound.get_messaging_group_by_platform
    multi_user_agent_platfor.Router.Inbound.create_messaging_group
    multi_user_agent_platfor.Sessions.Table.messaging_group_exists exists find
ensure_user_dm-repeat_example =
    ensure_user_dm-repeat channels later refl refl "tg:owner" before after dm (tt, tt) refl
