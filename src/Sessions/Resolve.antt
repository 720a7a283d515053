-- ===== src/Sessions/Resolve.antt =====
-- `resolveSession` of src/session-manager.ts: find or create the session of a message.
-- The session's folder (`initSessionFolder`) is file I/O and is not modelled.
use multi_user_agent_platfor.Base.{
  ℕ, ◌+◌, Bool, true, false, not, ◌&&◌, ◌||◌, Option, none, some, String, if◌then◌else◌, truthy,
  coalesce, thrown,
}
use multi_user_agent_platfor.Types.{
  Session, SessionMode, shared, per_thread, agent_shared, per_user, per_user_per_thread, active,
  stopped, is_user_scoped_session_mode,
}
use multi_user_agent_platfor.World.{World, M, pure, throw, ◌>>◌, on_central}
use multi_user_agent_platfor.Sessions.Table.{
  find_session_by_agent_group, find_session_for_agent, find_session_for_agent_owner,
  find_session_for_agent_root, create_session,
}

-- `sessionMode === 'shared' || sessionMode === 'per-user' ? null : threadId`
abbrev pub lookup_thread : SessionMode → Option String → Option String
lookup_thread shared thread_id = none
lookup_thread per_user thread_id = none
lookup_thread _ thread_id = thread_id

-- `sessionMode === 'per-thread' || sessionMode === 'per-user-per-thread' ? threadId : null`
abbrev pub stored_thread : SessionMode → Option String → Option String
stored_thread per_thread thread_id = thread_id
stored_thread per_user_per_thread thread_id = thread_id
stored_thread _ thread_id = none

abbrev pub is_agent_shared : SessionMode → Bool
is_agent_shared agent_shared = true
is_agent_shared _ = false

-- What `resolveSession` is called with.
pub record Scope : Type 0 where
  pub agent_group_id : String
  pub messaging_group_id : Option String
  pub thread_id : Option String
  pub session_mode : SessionMode
  pub owner_user_id : Option String
  pub root_session_id : Option String
  pub source_depth : Option ℕ

-- The lookup of a call without a root session.
unfoldable pub find_lane : Scope → World → Option Session
find_lane sc w =
    if is_agent_shared sc.session_mode
    then find_session_by_agent_group w.central sc.agent_group_id
    else if not (truthy sc.messaging_group_id)
    then none
    else if is_user_scoped_session_mode sc.session_mode
    then find_session_for_agent_owner w.central sc.agent_group_id
        (coalesce sc.messaging_group_id "") (coalesce sc.owner_user_id "")
        (lookup_thread sc.session_mode sc.thread_id)
    else find_session_for_agent w.central sc.agent_group_id (coalesce sc.messaging_group_id "")
        (lookup_thread sc.session_mode sc.thread_id)

unfoldable pub find_existing : Scope → World → Option Session
find_existing sc w =
    if truthy sc.root_session_id
    then find_session_for_agent_root w.central sc.agent_group_id (coalesce sc.root_session_id "")
    else find_lane sc w

unfoldable pub new_session : Scope → String → ℕ → Session
new_session sc id now = record {
  id = id;
  agent_group_id = sc.agent_group_id;
  messaging_group_id = sc.messaging_group_id;
  thread_id = stored_thread sc.session_mode sc.thread_id;
  owner_user_id =
      if truthy sc.root_session_id || is_user_scoped_session_mode sc.session_mode
      then sc.owner_user_id
      else none;
  root_session_id = some (coalesce sc.root_session_id id);
  status = active;
  container_status = stopped;
  last_active = none;
  archived_at = none;
  spawn_depth = elim sc.source_depth [ none ↦ 0 | some d ↦ d + 1 ];
  created_at = now;
}

-- `gen n` is the n-th random id that the process draws, with its prefix `sess-`.
module _ (gen : ℕ → String) (now : ℕ) where
  unfoldable pub create : Scope → M (Session × Bool)
  create sc w =
      (do let s = new_session sc (gen w.draws) now; on_central (create_session s); pure (s, true))
        (record w { draws = w.draws + 1 })

  -- The session and whether it is new.
  unfoldable pub resolve_session : Scope → M (Session × Bool)
  resolve_session sc w =
      if is_user_scoped_session_mode sc.session_mode && not (truthy sc.owner_user_id)
      then (throw (thrown "ownerUserId is required")) w
      else (elim (find_existing sc w) [ some s ↦ pure (s, false) w | none ↦ create sc w ])
