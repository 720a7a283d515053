-- ===== src/Tests/Sessions.antt =====
-- Session resolution and routing at concrete inputs.
use multi_user_agent_platfor.Base.{
  ℕ, Bool, true, false, Option, none, some, coalesce, List, [], ◌∷◌, String, ◌≡◌, ◌≢◌, refl, sym,
  ap, arith, eq_iff, Result, ok, Json, str, find,
}
use multi_user_agent_platfor.Types.{Session, per_user, is_active}
use multi_user_agent_platfor.World.{World}
use multi_user_agent_platfor.Sessions.Resolve.{
  Scope, find_existing, find_lane, new_session, create, resolve_session,
}
use multi_user_agent_platfor.Sessions.Isolation.{
  resolve_session-own_lane, resolve_session-isolates_users,
}
use multi_user_agent_platfor.Sessions.Repeat.{resolve_session-repeat}
use multi_user_agent_platfor.Router.Fanout.{fan_out}
use multi_user_agent_platfor.Router.Inbound.{start}
use multi_user_agent_platfor.Router.Quiet.{triggered, woken}
use multi_user_agent_platfor.Router.Safety.{fan_out-never_wakes_for_denied}
use multi_user_agent_platfor.Tests.Data.{suffix, host, chat_group, wiring, world, event}

some-≢ : (s t : String) → s ≢ t → some s ≢ some t
some-≢ s t n e = n (ap (λ o. coalesce o "") e)

abbrev scope : String → Scope
scope user = record {
  agent_group_id = "desk";
  messaging_group_id = some "mg-1";
  thread_id = none;
  session_mode = per_user;
  owner_user_id = some user;
  root_session_id = none;
  source_depth = none;
}

abbrev made : String → Session
made user = new_session (scope user) "a" 1000

abbrev after : String → World
after user = (resolve_session suffix 1000 (scope user) world).1

resolve_session-own_lane_example :
    ((made "tg:a").agent_group_id ≡ "desk")
    × (is_active (made "tg:a").status ≡ true)
    × ((made "tg:a").owner_user_id ≡ some "tg:a")
    × ((made "tg:a").messaging_group_id ≡ some "mg-1")
unfolding resolve_session find_existing find_lane
    multi_user_agent_platfor.Sessions.Table.find_session_for_agent_owner find create
    multi_user_agent_platfor.Sessions.Table.create_session multi_user_agent_platfor.Base.exists
    multi_user_agent_platfor.Permissions.Roles.agent_group_exists new_session
    multi_user_agent_platfor.Sessions.Table.messaging_group_exists
resolve_session-own_lane_example =
    resolve_session-own_lane suffix 1000 (scope "tg:a") world (after "tg:a") (made "tg:a") true refl
      refl refl refl

resolve_session-isolates_users_example : (made "tg:a").owner_user_id ≢ (made "tg:b").owner_user_id
unfolding resolve_session find_existing find_lane
    multi_user_agent_platfor.Sessions.Table.find_session_for_agent_owner find create
    multi_user_agent_platfor.Sessions.Table.create_session multi_user_agent_platfor.Base.exists
    multi_user_agent_platfor.Permissions.Roles.agent_group_exists new_session
    multi_user_agent_platfor.Sessions.Table.messaging_group_exists
resolve_session-isolates_users_example =
    resolve_session-isolates_users suffix 1000 (scope "tg:a") (scope "tg:b") world (after "tg:a")
      world (after "tg:b") (made "tg:a") (made "tg:b") true true refl refl refl refl refl refl
      (some-≢ "tg:a" "tg:b" (ground (arith, eq_iff "tg:a" "tg:b"))) refl refl

resolve_session-repeat_example :
    resolve_session suffix 1000 (scope "tg:a") (after "tg:a")
    ≡ (ok (made "tg:a", false), after "tg:a")
unfolding resolve_session find_existing find_lane
    multi_user_agent_platfor.Sessions.Table.find_session_for_agent_owner find create
    multi_user_agent_platfor.Sessions.Table.create_session multi_user_agent_platfor.Base.exists
    multi_user_agent_platfor.Permissions.Roles.agent_group_exists new_session
    multi_user_agent_platfor.Sessions.Table.messaging_group_exists
resolve_session-repeat_example =
    resolve_session-repeat suffix 1000 (scope "tg:a") world (after "tg:a") (made "tg:a") true
      (record { lane = refl; thread = λ e. cc }) refl

abbrev stranger_fan_out : World
stranger_fan_out =
    (fan_out host event chat_group (some "tg:stranger") (str "hello") (wiring ∷ []) (start host)
      world).1

fan_out-never_wakes_for_denied_example :
    (woken stranger_fan_out ≡ woken world)
    × ((g : String) → triggered g stranger_fan_out ≡ triggered g world)
unfolding resolve_session multi_user_agent_platfor.Permissions.Access.can_access_agent_group
    multi_user_agent_platfor.Permissions.Roles.get_user find
    multi_user_agent_platfor.Permissions.Roles.is_owner multi_user_agent_platfor.Base.exists
    multi_user_agent_platfor.Permissions.Roles.is_global_admin
    multi_user_agent_platfor.Permissions.Roles.is_admin_of_agent_group
    multi_user_agent_platfor.Permissions.Members.is_member
    multi_user_agent_platfor.Permissions.Members.has_membership_row
fan_out-never_wakes_for_denied_example =
    fan_out-never_wakes_for_denied host event chat_group (some "tg:stranger") (str "hello")
      (wiring ∷ []) (start host) world refl ((refl, refl), tt)
