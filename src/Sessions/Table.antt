-- ===== src/Sessions/Table.antt =====
-- src/db/sessions.ts: the sessions table of the central database.
use multi_user_agent_platfor.Base.{
  ℕ, suc, Bool, false, not, ◌&&◌, ◌||◌, Option, none, some, List, [], ◌∷◌, ◌++◌, String, ◌==◌,
  if◌then◌else◌, ltb, leb, truthy, is_null, column_is, coalesce, find, select, exists, delete_where,
  update_where, order_by, Result, ok, err, constraint,
}
use multi_user_agent_platfor.Types.{
  Central, Session, SessionStatus, ContainerStatus, is_active, is_archived, is_stopped,
}
use multi_user_agent_platfor.Permissions.Roles.{agent_group_exists, null_or}

unfoldable pub messaging_group_exists : Central → String → Bool
messaging_group_exists db id = exists (λ m. m.id == id) db.messaging_groups

abbrev pub session_references : Central → Session → Bool
session_references db s =
    agent_group_exists db s.agent_group_id
    && null_or (messaging_group_exists db) s.messaging_group_id

unfoldable pub create_session : Session → Central → Result Central
create_session s db =
    if exists (λ t. t.id == s.id) db.sessions || not (session_references db s)
    then err (constraint "sessions")
    else ok (record db {
      sessions =
          db.sessions ++ record s { root_session_id = some (coalesce s.root_session_id s.id) } ∷ [];
    })

unfoldable pub get_session : Central → String → Option Session
get_session db id = find (λ s. s.id == id) db.sessions

-- `thread_id = ?` where the code has a thread, `thread_id IS NULL` where it has none. A thread whose
-- id is the empty text counts as none.
abbrev pub thread_matches : Option String → Session → Bool
thread_matches thread_id s =
    if truthy thread_id
    then (elim thread_id [ none ↦ is_null s.thread_id | some t ↦ column_is s.thread_id t ])
    else is_null s.thread_id

abbrev pub agent_session : String → String → Option String → Session → Bool
agent_session agent_group_id messaging_group_id thread_id s =
    s.agent_group_id == agent_group_id
    && column_is s.messaging_group_id messaging_group_id
    && thread_matches thread_id s
    && is_null s.owner_user_id
    && is_active s.status

abbrev pub owner_session : String → String → String → Option String → Session → Bool
owner_session agent_group_id messaging_group_id owner_user_id thread_id s =
    s.agent_group_id == agent_group_id
    && column_is s.messaging_group_id messaging_group_id
    && column_is s.owner_user_id owner_user_id
    && thread_matches thread_id s
    && is_active s.status

unfoldable pub find_session : Central → String → Option String → Option Session
find_session db messaging_group_id thread_id =
    find
      (λ s.
        column_is s.messaging_group_id messaging_group_id
        && thread_matches thread_id s
        && is_null s.owner_user_id
        && is_active s.status)
      db.sessions

unfoldable pub find_session_for_agent : Central → String → String → Option String → Option Session
find_session_for_agent db agent_group_id messaging_group_id thread_id =
    find (agent_session agent_group_id messaging_group_id thread_id) db.sessions

unfoldable pub find_session_for_agent_owner :
    Central → String → String → String → Option String → Option Session
find_session_for_agent_owner db agent_group_id messaging_group_id owner_user_id thread_id =
    find (owner_session agent_group_id messaging_group_id owner_user_id thread_id) db.sessions

-- ORDER BY created_at DESC LIMIT 1
unfoldable pub newest : List Session → Option Session
newest [] = none
newest (s ∷ ss) = elim (newest ss) [
  | none ↦ some s
  | some t ↦ if leb t.created_at s.created_at then some s else some t
]

abbrev pub group_session : String → Session → Bool
group_session agent_group_id s = s.agent_group_id == agent_group_id && is_active s.status

abbrev pub root_session : String → String → Session → Bool
root_session agent_group_id root_session_id s =
    s.agent_group_id == agent_group_id
    && column_is s.root_session_id root_session_id
    && is_active s.status

unfoldable pub find_session_by_agent_group : Central → String → Option Session
find_session_by_agent_group db agent_group_id =
    newest (select (group_session agent_group_id) db.sessions)

unfoldable pub find_session_for_agent_root : Central → String → String → Option Session
find_session_for_agent_root db agent_group_id root_session_id =
    newest (select (root_session agent_group_id root_session_id) db.sessions)

unfoldable pub get_sessions_by_agent_group : Central → String → List Session
get_sessions_by_agent_group db agent_group_id =
    select (λ s. s.agent_group_id == agent_group_id) db.sessions

unfoldable pub get_active_sessions : Central → List Session
get_active_sessions db = select (λ s. is_active s.status) db.sessions

-- LIMIT n
unfoldable pub limit : ℕ → List Session → List Session
limit n [] = []
limit ℕ.zero (s ∷ ss) = []
limit (suc n) (s ∷ ss) = s ∷ limit n ss

abbrev pub before : ℕ → Option ℕ → Bool
before t none = false
before t (some u) = ltb u t

abbrev pub archivable : ℕ → Session → Bool
archivable t s = is_active s.status && is_stopped s.container_status && before t s.last_active

abbrev pub expired_archive : ℕ → Session → Bool
expired_archive t s = is_archived s.status && before t s.archived_at

-- Idle sessions with no running container, the longest idle first.
unfoldable pub find_archivable_sessions : Central → ℕ → ℕ → List Session
find_archivable_sessions db t n =
    limit n (order_by (λ s. coalesce s.last_active 0) (select (archivable t) db.sessions))

unfoldable pub find_archived_sessions_older_than : Central → ℕ → ℕ → List Session
find_archived_sessions_older_than db t n =
    limit n (order_by (λ s. coalesce s.archived_at 0) (select (expired_archive t) db.sessions))

unfoldable pub get_running_sessions : Central → List Session
get_running_sessions db = select (λ s. not (is_stopped s.container_status)) db.sessions

-- What `updateSession` is given; `none` is a field that the caller leaves out.
pub record SessionUpdates : Type 0 where
  pub status : Option SessionStatus
  pub container_status : Option ContainerStatus
  pub last_active : Option ℕ
  pub archived_at : Option ℕ

abbrev pub or_kept {ℓ} : {A : Type ℓ} → Option A → Option A → Option A
or_kept none old = old
or_kept (some new) old = some new

abbrev pub apply_updates : SessionUpdates → Session → Session
apply_updates u s = record s {
  status = coalesce u.status s.status;
  container_status = coalesce u.container_status s.container_status;
  last_active = or_kept u.last_active s.last_active;
  archived_at = or_kept u.archived_at s.archived_at;
}

unfoldable pub update_session : String → SessionUpdates → Central → Central
update_session id u db = record db {
  sessions = update_where (λ s. s.id == id) (apply_updates u) db.sessions;
}

-- Foreign keys: the questions and approvals of a session keep its row.
abbrev pub is_referenced : Central → String → Bool
is_referenced db id =
    exists (λ q. q.session_id == id) db.pending_questions
    || exists (λ a. column_is a.session_id id) db.pending_approvals

unfoldable pub delete_session : String → Central → Result Central
delete_session id db =
    if exists (λ s. s.id == id) db.sessions && is_referenced db id
    then err (constraint "sessions")
    else ok (record db { sessions = delete_where (λ s. s.id == id) db.sessions })
