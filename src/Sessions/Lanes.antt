-- ===== src/Sessions/Lanes.antt =====
-- What a resolved session has to do with the message that it was resolved for.
use multi_user_agent_platfor.Base.{
  ℕ, Bool, true, false, not, ◌&&◌, Option, none, some, List, [], ◌∷◌, String, ◌≡◌, refl, ◌∙◌, inl,
  inr, arith, eq_iff, truthy, column_is-some, coalesce, leb, select, In, find-eq-some, In-select,
  Bool-cases, Option-cases,
}
use multi_user_agent_platfor.Types.{Session, SessionMode, is_active, is_user_scoped_session_mode}
use multi_user_agent_platfor.World.{World}
use multi_user_agent_platfor.Sessions.Table.{
  newest, group_session, root_session, agent_session, owner_session, find_session_by_agent_group,
  find_session_for_agent, find_session_for_agent_owner, find_session_for_agent_root,
}
use multi_user_agent_platfor.Sessions.Resolve.{
  Scope, lookup_thread, is_agent_shared, find_lane, find_existing, new_session,
}

newest-eq-some : (ss : List Session) {s : Session} → newest ss ≡ some s → In s ss
unfolding newest
newest-eq-some [] e = cc
newest-eq-some (t ∷ ss) {s} e = elim (Option-cases (newest ss)) [
  | inl n ↦ inl (ground arith)
  | inr (u, q) ↦ elim (Bool-cases (leb u.created_at t.created_at)) [
    | inl a ↦ inl (ground arith)
    | inr b ↦ inr (newest-eq-some ss (ground arith))
  ]
]

newest-select-eq-some :
    (p : Session → Bool) (ss : List Session) {s : Session}
    → newest (select p ss) ≡ some s
    → p s ≡ true
newest-select-eq-some p ss {s} e = (In-select p ss s (newest-eq-some (select p ss) e)).1

find_session_by_agent_group-some :
    (w : World) (g : String) (s : Session)
    → find_session_by_agent_group w.central g ≡ some s
    → group_session g s ≡ true
unfolding find_session_by_agent_group
find_session_by_agent_group-some w g s e =
    newest-select-eq-some (group_session g) w.central.sessions e

find_session_for_agent_root-some :
    (w : World) (g r : String) (s : Session)
    → find_session_for_agent_root w.central g r ≡ some s
    → root_session g r s ≡ true
unfolding find_session_for_agent_root
find_session_for_agent_root-some w g r s e =
    newest-select-eq-some (root_session g r) w.central.sessions e

find_session_for_agent-some :
    (w : World) (g m : String) (t : Option String) (s : Session)
    → find_session_for_agent w.central g m t ≡ some s
    → agent_session g m t s ≡ true
unfolding find_session_for_agent
find_session_for_agent-some w g m t s e = (find-eq-some _ w.central.sessions e).0

find_session_for_agent_owner-some :
    (w : World) (g m u : String) (t : Option String) (s : Session)
    → find_session_for_agent_owner w.central g m u t ≡ some s
    → owner_session g m u t s ≡ true
unfolding find_session_for_agent_owner
find_session_for_agent_owner-some w g m u t s e = (find-eq-some _ w.central.sessions e).0

-- A session that serves the scope: of its agent group, live, and where the scope names one user
-- outside a root lane, of that user and that chat.
pub record Serves (sc : Scope) (s : Session) : Type 0 where
  pub group : s.agent_group_id ≡ sc.agent_group_id
  pub live : is_active s.status ≡ true
  pub owner :
      truthy sc.root_session_id ≡ false
      → is_user_scoped_session_mode sc.session_mode ≡ true
      → truthy sc.messaging_group_id ≡ true
      → (s.owner_user_id ≡ sc.owner_user_id) × (s.messaging_group_id ≡ sc.messaging_group_id)
  pub root : truthy sc.root_session_id ≡ true → s.root_session_id ≡ sc.root_session_id

coalesce-truthy : (o : Option String) → truthy o ≡ true → some (coalesce o "") ≡ o
coalesce-truthy none h = cc
coalesce-truthy (some s) h = refl

root_session-Serves :
    (sc : Scope) (s : Session)
    → truthy sc.root_session_id ≡ true
    → root_session sc.agent_group_id (coalesce sc.root_session_id "") s ≡ true
    → Serves sc s
root_session-Serves sc s t h = record {
  group = ground (arith, eq_iff s.agent_group_id sc.agent_group_id);
  live = ground arith;
  owner = λ r u m. ground arith;
  root = λ r.
      column_is-some s.root_session_id (coalesce sc.root_session_id "") (ground arith)
      ∙ coalesce-truthy sc.root_session_id t;
}

owner_session-Serves :
    (sc : Scope) (s : Session) (t : Option String)
    → truthy sc.root_session_id ≡ false
    → truthy sc.owner_user_id ≡ true
    → owner_session sc.agent_group_id
        (coalesce sc.messaging_group_id "")
        (coalesce sc.owner_user_id "")
        t
        s
      ≡ true
    → Serves sc s
owner_session-Serves sc s t n o h = record {
  group = ground (arith, eq_iff s.agent_group_id sc.agent_group_id);
  live = ground arith;
  owner = λ r u m. (
    column_is-some s.owner_user_id (coalesce sc.owner_user_id "") (ground arith)
        ∙ coalesce-truthy sc.owner_user_id o,
    column_is-some s.messaging_group_id (coalesce sc.messaging_group_id "") (ground arith)
        ∙ coalesce-truthy sc.messaging_group_id m,
  );
  root = λ r. ground arith;
}

plain_session-Serves :
    (sc : Scope) (s : Session)
    → truthy sc.root_session_id ≡ false
    → is_user_scoped_session_mode sc.session_mode ≡ false
    → group_session sc.agent_group_id s ≡ true
    → Serves sc s
plain_session-Serves sc s n u h = record {
  group = ground (arith, eq_iff s.agent_group_id sc.agent_group_id);
  live = ground arith;
  owner = λ r u' m. ground arith;
  root = λ r. ground arith;
}

agent_shared-not_user_scoped :
    (m : SessionMode) → is_agent_shared m ≡ true → is_user_scoped_session_mode m ≡ false
agent_shared-not_user_scoped m h = ground arith

find_lane-Serves :
    (sc : Scope) (w : World) (s : Session)
    → truthy sc.root_session_id ≡ false
    → (is_user_scoped_session_mode sc.session_mode && not (truthy sc.owner_user_id)) ≡ false
    → find_lane sc w ≡ some s
    → Serves sc s
unfolding find_lane
find_lane-Serves sc w s n g e = elim (Bool-cases (is_agent_shared sc.session_mode)) [
  | inl a ↦
      plain_session-Serves sc s n (agent_shared-not_user_scoped sc.session_mode a)
        (find_session_by_agent_group-some w sc.agent_group_id s (rw (a, find_lane) at e))
  | inr b ↦ elim (Bool-cases (is_user_scoped_session_mode sc.session_mode)) [
    | inl u ↦
        owner_session-Serves sc s (lookup_thread sc.session_mode sc.thread_id) n (ground arith) (
          find_session_for_agent_owner-some w sc.agent_group_id (coalesce sc.messaging_group_id "")
            (coalesce sc.owner_user_id "") (lookup_thread sc.session_mode sc.thread_id) s
            (ground arith))
    | inr u ↦
        let found =
          find_session_for_agent-some w sc.agent_group_id (coalesce sc.messaging_group_id "")
            (lookup_thread sc.session_mode sc.thread_id) s (ground arith) in
        plain_session-Serves sc s n u (ground arith)
  ]
]

pub find_existing-Serves :
    (sc : Scope) (w : World) (s : Session)
    → (is_user_scoped_session_mode sc.session_mode && not (truthy sc.owner_user_id)) ≡ false
    → find_existing sc w ≡ some s
    → Serves sc s
unfolding find_existing
find_existing-Serves sc w s g e = elim (Bool-cases (truthy sc.root_session_id)) [
  | inl t ↦ root_session-Serves sc s t (
      find_session_for_agent_root-some w sc.agent_group_id (coalesce sc.root_session_id "") s
        (rw (t, find_existing) at e))
  | inr n ↦ find_lane-Serves sc w s n g (rw (n, find_existing) at e)
]

pub new_session-Serves : (sc : Scope) (id : String) (now : ℕ) → Serves sc (new_session sc id now)
unfolding new_session
new_session-Serves sc id now = record {
  group = refl;
  live = refl;
  owner = λ r u m. ground arith;
  root = λ r. ground arith;
}
