-- ===== src/Sessions/Isolation.antt =====
-- Whose session `resolveSession` of src/session-manager.ts answers.
use multi_user_agent_platfor.Base.{
  ℕ, Bool, true, false, not, ◌&&◌, [], ◌∷◌, ◌++◌, String, ◌≡◌, sym, ◌∙◌, ◌≢◌, inl, inr, arith,
  truthy, ok, Option-cases,
}
use multi_user_agent_platfor.Types.{Session, is_active, is_user_scoped_session_mode}
use multi_user_agent_platfor.World.{World}
use multi_user_agent_platfor.Sessions.Table.{create_session}
use multi_user_agent_platfor.Sessions.Resolve.{
  Scope, find_existing, new_session, create, resolve_session,
}
use multi_user_agent_platfor.Sessions.Lanes.{Serves, find_existing-Serves, new_session-Serves}

module _ (gen : ℕ → String) (now : ℕ) where
  -- A successful `create` made exactly the new session.
  pub create-eq-ok :
      (sc : Scope) (w w' : World) (s : Session) (c : Bool)
      → create gen now sc w ≡ (ok (s, c), w')
      → (s ≡ new_session sc (gen w.draws) now)
        × (c ≡ true)
        × (w'.central.sessions ≡ w.central.sessions ++ s ∷ [])
  unfolding create create_session new_session
  create-eq-ok sc w w' s c e = ground arith

  -- The session that is found or created serves the scope: it is a live session of the agent
  -- group; outside a root lane a user-scoped one is the sender's own, in the message's chat; and
  -- in a root lane it belongs to that lane.
  pub resolve_session-Serves :
      (sc : Scope) (w w' : World) (s : Session) (c : Bool)
      → resolve_session gen now sc w ≡ (ok (s, c), w')
      → Serves sc s
  unfolding resolve_session
  resolve_session-Serves sc w w' s c e =
      let g : (is_user_scoped_session_mode sc.session_mode && not (truthy sc.owner_user_id))
          ≡ false =
        ground arith in
      elim (Option-cases (find_existing sc w)) [
        | inr (t, f) ↦ let same : s ≡ t = ground arith in rw same (find_existing-Serves sc w t g f)
        | inl f ↦
            let made : create gen now sc w ≡ (ok (s, c), w') = ground arith in
            rw (create-eq-ok sc w w' s c made).0 (new_session-Serves sc (gen w.draws) now)
      ]

  -- Outside a root lane, a message that is resolved in a user-scoped mode gets a live session of
  -- the agent group that belongs to the sender, in the message's own chat.
  pub resolve_session-own_lane :
      (sc : Scope) (w w' : World) (s : Session) (c : Bool)
      → is_user_scoped_session_mode sc.session_mode ≡ true
      → truthy sc.root_session_id ≡ false
      → truthy sc.messaging_group_id ≡ true
      → resolve_session gen now sc w ≡ (ok (s, c), w')
      → (s.agent_group_id ≡ sc.agent_group_id)
        × (is_active s.status ≡ true)
        × (s.owner_user_id ≡ sc.owner_user_id)
        × (s.messaging_group_id ≡ sc.messaging_group_id)
  resolve_session-own_lane sc w w' s c u r m e =
      let p = resolve_session-Serves sc w w' s c e in
      (p.group, p.live, (p.owner r u m).0, (p.owner r u m).1)

  -- Messages of two different users that are resolved in a user-scoped mode, each in its chat and
  -- outside a root lane, whatever the states of the platform, never get one session: the two sessions
  -- have different owners.
  pub resolve_session-isolates_users :
      (sc sc' : Scope) (w w₁ v v₁ : World) (s t : Session) (c d : Bool)
      → is_user_scoped_session_mode sc.session_mode ≡ true
      → is_user_scoped_session_mode sc'.session_mode ≡ true
      → truthy sc.root_session_id ≡ false
      → truthy sc'.root_session_id ≡ false
      → truthy sc.messaging_group_id ≡ true
      → truthy sc'.messaging_group_id ≡ true
      → sc.owner_user_id ≢ sc'.owner_user_id
      → resolve_session gen now sc w ≡ (ok (s, c), w₁)
      → resolve_session gen now sc' v ≡ (ok (t, d), v₁)
      → s.owner_user_id ≢ t.owner_user_id
  resolve_session-isolates_users sc sc' w w₁ v v₁ s t c d u u' r r' m m' n e e' same =
      let p = resolve_session-Serves sc w w₁ s c e in
      let q = resolve_session-Serves sc' v v₁ t d e' in
      n (sym (p.owner r u m).0 ∙ same ∙ (q.owner r' u' m').0)
