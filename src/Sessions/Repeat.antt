-- ===== src/Sessions/Repeat.antt =====
-- Calling `resolveSession` of src/session-manager.ts twice.
use multi_user_agent_platfor.Base.{
  ℕ, Bool, true, false, not, ◌&&◌, ◌||◌, Option, none, some, List, [], ◌∷◌, ◌++◌, String, ◌==◌, ◌≡◌,
  refl, ap, ◌≢◌, inl, inr, arith, eq_iff, eq_refl, if◌then◌else◌, truthy, column_is, is_null,
  coalesce, leb, find, select, select-append, find-append, ok, Bool-cases, Option-cases,
}
use multi_user_agent_platfor.Types.{Session, SessionMode, is_user_scoped_session_mode}
use multi_user_agent_platfor.World.{World}
use multi_user_agent_platfor.Sessions.Table.{
  newest, group_session, root_session, agent_session, owner_session, thread_matches,
  find_session_by_agent_group, find_session_for_agent, find_session_for_agent_owner,
  find_session_for_agent_root,
}
use multi_user_agent_platfor.Sessions.Resolve.{
  Scope, lookup_thread, stored_thread, is_agent_shared, find_lane, find_existing, new_session,
  create, resolve_session,
}
use multi_user_agent_platfor.Sessions.Isolation.{create-eq-ok}

newest-eq-none : (ss : List Session) → newest ss ≡ none → ss ≡ []
unfolding newest
newest-eq-none [] e = refl
newest-eq-none (t ∷ ss) e = elim (Option-cases (newest ss)) [
  | inl n ↦ ground arith
  | inr (u, q) ↦ elim (Bool-cases (leb u.created_at t.created_at)) [
    | inl a ↦ ground arith
    | inr b ↦ ground arith
  ]
]

newest-append :
    (p : Session → Bool) (ss : List Session) (s : Session)
    → newest (select p ss) ≡ none
    → p s ≡ true
    → newest (select p (ss ++ s ∷ [])) ≡ some s
unfolding newest select
newest-append p ss s e h = rw (select-append p ss (s ∷ []), newest-eq-none (select p ss) e, h) refl

find_one-append :
    (p : Session → Bool) (ss : List Session) (s : Session)
    → find p ss ≡ none
    → p s ≡ true
    → find p (ss ++ s ∷ []) ≡ some s
unfolding find
find_one-append p ss s e h = rw (find-append p ss (s ∷ []) e, h) refl

-- The later calls can find the session: there is a lane to look in, and the thread has a name.
pub record CanFind (sc : Scope) : Type 0 where
  pub lane :
      (truthy sc.root_session_id || is_agent_shared sc.session_mode || truthy sc.messaging_group_id)
      ≡ true
  pub thread : sc.thread_id ≢ some ""

not_empty : (t : String) → some t ≢ some "" → (t == "") ≡ false
not_empty t n = elim (Bool-cases (t == "")) [
  | inl e ↦ absurd (n (ap some ((eq_iff t "").0 e)))
  | inr e ↦ e
]

module _ (gen : ℕ → String) (now : ℕ) (sc : Scope) (id : String) where
  new_session-root :
      truthy sc.root_session_id ≡ true
      → root_session sc.agent_group_id (coalesce sc.root_session_id "") (new_session sc id now)
        ≡ true
  unfolding new_session
  new_session-root t =
      ground (arith, eq_refl sc.agent_group_id, eq_refl (coalesce sc.root_session_id ""))

  new_session-group : group_session sc.agent_group_id (new_session sc id now) ≡ true
  unfolding new_session
  new_session-group = ground (arith, eq_refl sc.agent_group_id)

  new_session-thread :
      is_agent_shared sc.session_mode ≡ false
      → sc.thread_id ≢ some ""
      → thread_matches (lookup_thread sc.session_mode sc.thread_id) (new_session sc id now) ≡ true
  unfolding new_session
  new_session-thread a n = go sc.session_mode sc.thread_id a n
    where
      go :
          (m : SessionMode) (t : Option String)
          → is_agent_shared m ≡ false
          → t ≢ some ""
          → (if truthy (lookup_thread m t)
              then (elim (lookup_thread m t) [
                | none ↦ is_null (stored_thread m t)
                | some u ↦ column_is (stored_thread m t) u
              ])
              else is_null (stored_thread m t))
            ≡ true
      go m none a n = ground arith
      go m (some t) a n = let named : (t == "") ≡ false = not_empty t n in ground (arith, eq_refl t)

  coalesce-truthy_is : (o : Option String) → truthy o ≡ true → column_is o (coalesce o "") ≡ true
  coalesce-truthy_is none h = cc
  coalesce-truthy_is (some x) h = eq_refl x

  new_session-agent :
      truthy sc.root_session_id ≡ false
      → is_agent_shared sc.session_mode ≡ false
      → is_user_scoped_session_mode sc.session_mode ≡ false
      → truthy sc.messaging_group_id ≡ true
      → sc.thread_id ≢ some ""
      → agent_session sc.agent_group_id
          (coalesce sc.messaging_group_id "")
          (lookup_thread sc.session_mode sc.thread_id)
          (new_session sc id now)
        ≡ true
  new_session-agent r a u m n =
      let thread = new_session-thread a n in
      let chat = coalesce-truthy_is sc.messaging_group_id m in
      unfold new_session in ground (arith, thread, chat, eq_refl sc.agent_group_id)

  new_session-owner :
      truthy sc.root_session_id ≡ false
      → is_agent_shared sc.session_mode ≡ false
      → is_user_scoped_session_mode sc.session_mode ≡ true
      → truthy sc.owner_user_id ≡ true
      → truthy sc.messaging_group_id ≡ true
      → sc.thread_id ≢ some ""
      → owner_session sc.agent_group_id
          (coalesce sc.messaging_group_id "")
          (coalesce sc.owner_user_id "")
          (lookup_thread sc.session_mode sc.thread_id)
          (new_session sc id now)
        ≡ true
  new_session-owner r a u o m n =
      let thread = new_session-thread a n in
      let chat = coalesce-truthy_is sc.messaging_group_id m in
      let owner = coalesce-truthy_is sc.owner_user_id o in
      unfold new_session in ground (arith, thread, chat, owner, eq_refl sc.agent_group_id)

module _ (gen : ℕ → String) (now : ℕ) where
  find_lane-appended :
      (sc : Scope) (w w' : World) (id : String)
      → CanFind sc
      → truthy sc.root_session_id ≡ false
      → (is_user_scoped_session_mode sc.session_mode && not (truthy sc.owner_user_id)) ≡ false
      → w'.central.sessions ≡ w.central.sessions ++ new_session sc id now ∷ []
      → find_lane sc w ≡ none
      → find_lane sc w' ≡ some (new_session sc id now)
  unfolding find_lane find_session_by_agent_group find_session_for_agent
      find_session_for_agent_owner
  find_lane-appended sc w w' id c r g grown e =
      elim (Bool-cases (is_agent_shared sc.session_mode)) [
        | inl a ↦
            rw (a, grown, find_lane)
              (newest-append (group_session sc.agent_group_id) w.central.sessions
                (new_session sc id now) (rw (a, find_lane) at e) (new_session-group gen now sc id))
        | inr b ↦
            let m : truthy sc.messaging_group_id ≡ true = ground (arith, c.lane) in
            elim (Bool-cases (is_user_scoped_session_mode sc.session_mode)) [
              | inl u ↦
                  rw (b, m, u, grown, find_lane)
                    (find_one-append _ w.central.sessions (new_session sc id now)
                      (rw (b, m, u, find_lane) at e)
                      (new_session-owner gen now sc id r b u (ground arith) m c.thread))
              | inr u ↦
                  rw (b, m, u, grown, find_lane)
                    (find_one-append _ w.central.sessions (new_session sc id now)
                      (rw (b, m, u, find_lane) at e)
                      (new_session-agent gen now sc id r b u m c.thread))
            ]
      ]

  find_existing-appended :
      (sc : Scope) (w w' : World) (id : String)
      → CanFind sc
      → (is_user_scoped_session_mode sc.session_mode && not (truthy sc.owner_user_id)) ≡ false
      → w'.central.sessions ≡ w.central.sessions ++ new_session sc id now ∷ []
      → find_existing sc w ≡ none
      → find_existing sc w' ≡ some (new_session sc id now)
  unfolding find_existing find_session_for_agent_root
  find_existing-appended sc w w' id c g grown e = elim (Bool-cases (truthy sc.root_session_id)) [
    | inl t ↦
        rw (t, grown, find_existing)
          (newest-append (root_session sc.agent_group_id (coalesce sc.root_session_id ""))
            w.central.sessions (new_session sc id now) (rw (t, find_existing) at e)
            (new_session-root gen now sc id t))
    | inr n ↦
        rw (n, find_existing)
          (find_lane-appended sc w w' id c n g grown (rw (n, find_existing) at e))
  ]

  -- Where a scope names a lane to look in (a root session, an agent-shared mode or a chat) and no
  -- thread with an empty id, and has been resolved, resolving it again gives the same session,
  -- creates nothing and changes no state.
  pub resolve_session-repeat :
      (sc : Scope) (w w' : World) (s : Session) (c : Bool)
      → CanFind sc
      → resolve_session gen now sc w ≡ (ok (s, c), w')
      → resolve_session gen now sc w' ≡ (ok (s, false), w')
  unfolding resolve_session
  resolve_session-repeat sc w w' s c can e =
      let g : (is_user_scoped_session_mode sc.session_mode && not (truthy sc.owner_user_id))
          ≡ false =
        ground arith in
      elim (Option-cases (find_existing sc w)) [
        | inr (t, f) ↦ ground arith
        | inl f ↦
            let made : create gen now sc w ≡ (ok (s, c), w') = ground arith in
            let (new, fresh, grown) = create-eq-ok gen now sc w w' s c made in
            let found = find_existing-appended sc w w' (gen w.draws) can g (rw new at grown) f in
            ground (arith, found, new)
      ]
