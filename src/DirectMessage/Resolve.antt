-- ===== src/DirectMessage/Resolve.antt =====
-- `ensureUserDm` of src/modules/permissions/user-dm.ts with the cache of src/modules/permissions/db/user-dms.ts.
use multi_user_agent_platfor.Base.{
  ℕ, ◌+◌, Bool, false, not, ◌&&◌, ◌||◌, Option, none, some, List, [], ◌∷◌, ◌++◌, String, ◌==◌,
  if◌then◌else◌, is_null, find, select, delete_where, update_where, Result, ok, err, constraint,
}
use multi_user_agent_platfor.Types.{Central, User, MessagingGroup, strict}
use multi_user_agent_platfor.Permissions.Roles.{get_user}
use multi_user_agent_platfor.Sessions.Table.{messaging_group_exists}
use multi_user_agent_platfor.Router.Inbound.{
  get_messaging_group, get_messaging_group_by_platform, create_messaging_group,
}

pub record UserDm : Type 0 where
  pub user_id : String
  pub channel_type : String
  pub messaging_group_id : String
  pub resolved_at : ℕ

-- The central database, the cache beside it, and how many random ids have been drawn.
pub record Contacts : Type 0 where
  pub central : Central
  pub user_dms : List UserDm
  pub draws : ℕ

-- What one call has from outside: its clock, its ids and what the adapters answer it.
pub record Channels : Type 0 where
  pub now : ℕ
  pub gen : ℕ → String
  -- whether an adapter is registered for a channel
  pub registered : String → Bool
  -- `openDM` of a channel's adapter, where it has one; it may throw
  pub open_dm : String → Option (String → Result String)
  -- what stands before and after the first colon; `none` where there is none
  pub split_at_colon : String → Option (String × String)

abbrev pub dm_of : String → String → UserDm → Bool
dm_of user_id channel_type r = r.user_id == user_id && r.channel_type == channel_type

unfoldable pub get_user_dm : String → String → List UserDm → Option UserDm
get_user_dm user_id channel_type dms = find (dm_of user_id channel_type) dms

unfoldable pub get_user_dms_for_user : String → List UserDm → List UserDm
get_user_dms_for_user user_id dms = select (λ r. r.user_id == user_id) dms

unfoldable pub delete_user_dm : String → String → List UserDm → List UserDm
delete_user_dm user_id channel_type dms = delete_where (dm_of user_id channel_type) dms

-- The user and the chat of a row are references.
unfoldable pub upsert_user_dm : UserDm → Central → List UserDm → Result (List UserDm)
upsert_user_dm row db dms =
    if is_null (get_user db row.user_id) || not (messaging_group_exists db row.messaging_group_id)
    then err (constraint "user_dms")
    else (if is_null (get_user_dm row.user_id row.channel_type dms)
        then ok (dms ++ row ∷ [])
        else ok (
            update_where (dm_of row.user_id row.channel_type)
              (λ r. record r {
                messaging_group_id = row.messaging_group_id;
                resolved_at = row.resolved_at;
              })
              dms))

-- What a call answers, and what it leaves.
abbrev pub Outcome : Type 0 → Type 0
Outcome A = Result A × Contacts

module _ (channels : Channels) where
  abbrev pub namespaced_id : User → Option (String × String) → Option (String × String)
  namespaced_id user none = none
  namespaced_id user (some (prefix, handle)) =
      if prefix == "" || handle == ""
      then none
      else (if not (channels.registered prefix)
            && not (user.kind == "")
            && channels.registered user.kind
          then some (user.kind, user.id)
          else some (prefix, handle))

  -- The channel and the handle.
  unfoldable pub parse_user_id : User → Option (String × String)
  parse_user_id user = namespaced_id user (channels.split_at_colon user.id)

  abbrev pub opened : Result String → Option String
  opened (ok id) = some id
  opened (err e) = none

  unfoldable pub resolve_dm_platform_id : String → String → Option String
  resolve_dm_platform_id channel_type handle =
      if not (channels.registered channel_type)
      then none
      else (elim (channels.open_dm channel_type) [
        | none ↦ some handle
        | some ask ↦ opened (ask handle)
      ])

  abbrev pub dm_group : User → String → String → String → MessagingGroup
  dm_group user channel_type platform_id id = record {
    id = id;
    channel_type = channel_type;
    platform_id = platform_id;
    name = user.display_name;
    is_group = false;
    unknown_sender_policy = strict;
    denied_at = none;
  }

  abbrev pub created_group : MessagingGroup → Contacts → Result Central → Outcome MessagingGroup
  created_group mg c (ok db) = (ok mg, record c { central = db; draws = c.draws + 1 })
  created_group mg c (err e) = (err e, record c { draws = c.draws + 1 })

  unfoldable pub find_or_create : User → String → String → Contacts → Outcome MessagingGroup
  find_or_create user channel_type platform_id c =
      elim (get_messaging_group_by_platform c.central channel_type platform_id) [
        | some mg ↦ (ok mg, c)
        | none ↦
            let mg = dm_group user channel_type platform_id (channels.gen c.draws) in
            created_group mg c (create_messaging_group mg c.central)
      ]

  abbrev pub cached :
      MessagingGroup → Contacts → Result (List UserDm) → Outcome (Option MessagingGroup)
  cached mg c (ok dms) = (ok (some mg), record c { user_dms = dms })
  cached mg c (err e) = (err e, c)

  unfoldable pub remember : User → String → Outcome MessagingGroup → Outcome (Option MessagingGroup)
  remember user channel_type (err e, c) = (err e, c)
  remember user channel_type (ok mg, c) = cached mg c (
      upsert_user_dm
        (record {
          user_id = user.id;
          channel_type = channel_type;
          messaging_group_id = mg.id;
          resolved_at = channels.now;
        })
        c.central c.user_dms)

  abbrev pub find_chat : User → String → Option String → Contacts → Outcome (Option MessagingGroup)
  find_chat user channel_type none c = (ok none, c)
  find_chat user channel_type (some platform_id) c =
      if platform_id == ""
      then (ok none, c)
      else remember user channel_type (find_or_create user channel_type platform_id c)

  abbrev pub group_of : Central → Option UserDm → Option MessagingGroup
  group_of db none = none
  group_of db (some row) = get_messaging_group db row.messaging_group_id

  abbrev pub on_channel :
      User → Option (String × String) → Contacts → Outcome (Option MessagingGroup)
  on_channel user none c = (ok none, c)
  on_channel user (some (channel_type, handle)) c =
      elim (group_of c.central (get_user_dm user.id channel_type c.user_dms)) [
        | some mg ↦ (ok (some mg), c)
        | none ↦ find_chat user channel_type (resolve_dm_platform_id channel_type handle) c
      ]

  abbrev pub known_user : Option User → Contacts → Outcome (Option MessagingGroup)
  known_user none c = (ok none, c)
  known_user (some user) c = on_channel user (parse_user_id user) c

  -- `ok none` is a user who cannot be reached.
  unfoldable pub ensure_user_dm : String → Contacts → Outcome (Option MessagingGroup)
  ensure_user_dm user_id c = known_user (get_user c.central user_id) c
