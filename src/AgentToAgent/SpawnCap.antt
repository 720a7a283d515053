-- ===== src/AgentToAgent/SpawnCap.antt =====
-- The depths of sessions within the spawn-depth cap, as the statements on sessions and messages keep them.
use Prim.Native.String
use multi_user_agent_platfor.Base.{
  ℕ, suc, ◌+◌, ◌≤◌, ◌<◌, Bool, not, ◌&&◌, none, some, List, [], ◌∷◌, ◌++◌, String, ◌==◌, ◌≡◌, inl,
  inr, refl, arith, truthy, coalesce, is_null, Result, ok, err, Bool-cases, Option-cases, All,
  All-append, update_where,
}
use multi_user_agent_platfor.Host.{Host}
use multi_user_agent_platfor.Types.{
  Central, Session, MessageOut, MessageIn, is_user_scoped_session_mode,
}
use multi_user_agent_platfor.World.{World, M, lift, on_central, stored, continue_with, ◌>>=◌}
use multi_user_agent_platfor.SessionDb.Inbound.{NewMessage}
use multi_user_agent_platfor.Sessions.Table.{
  create_session, update_session, get_session, SessionUpdates, apply_updates,
}
use multi_user_agent_platfor.Sessions.Resolve.{
  Scope, new_session, create, find_existing, resolve_session,
}
use multi_user_agent_platfor.Router.Deliver.{
  inserted, insert_into_session, resolve, wake_session, write_outbound_direct,
  write_session_message,
}

-- Every session's place in its chain of spawns is within the cap.
abbrev pub Capped : ℕ → World → Type 0
Capped cap w = All (λ s. s.spawn_depth ≤ cap) w.central.sessions

create_session-sessions :
    (s : Session) (db db' : Central)
    → create_session s db ≡ ok db'
    → db'.sessions
      ≡ db.sessions ++ record s { root_session_id = some (coalesce s.root_session_id s.id) } ∷ []
unfolding create_session
create_session-sessions s db db' e = ground arith

new_session-depth :
    (sc : Scope) (d : ℕ) (id : String) (now : ℕ)
    → sc.source_depth ≡ some d
    → (new_session sc id now).spawn_depth ≡ suc d
unfolding new_session
new_session-depth sc d id now e = rw e (ground arith)

module _ (cap : ℕ) where
  pub Capped-bind :
      {A B : Type 0} (m : M A) (f : A → M B) (w : World)
      → Capped cap (m w).1
      → ((a : A) (v : World) → Capped cap v → Capped cap (f a v).1)
      → Capped cap ((m >>= f) w).1
  Capped-bind {A} m f w p q = go (m w) p
    where
      go : (r : Result A × World) → Capped cap r.1 → Capped cap (continue_with r.0 r.1 f).1
      go (ok a, v) h = q a v h
      go (err x, v) h = h

  Capped-update :
      (p : Session → Bool) (u : SessionUpdates) (ss : List Session)
      → All (λ s. s.spawn_depth ≤ cap) ss
      → All (λ s. s.spawn_depth ≤ cap) (update_where p (apply_updates u) ss)
  unfolding update_where
  Capped-update p u [] h = tt
  Capped-update p u (s ∷ ss) (h, hs) = (ground arith, Capped-update p u ss hs)

  create_session-Capped :
      (s : Session) (w : World)
      → s.spawn_depth ≤ cap
      → Capped cap w
      → Capped cap (on_central (create_session s) w).1
  create_session-Capped s w d h = go (create_session s w.central) refl
    where
      go : (r : Result Central) → create_session s w.central ≡ r → Capped cap (stored w r).1
      go (err e) k = h
      go (ok db) k =
          rw (create_session-sessions s w.central db k)
            (All-append (λ s. s.spawn_depth ≤ cap) _ _ h (d, tt))

  inserted-Capped :
      (ag sid : String) (row : MessageIn) (r : Result (List MessageIn)) (w : World)
      → Capped cap w
      → Capped cap (inserted ag sid row r w).1
  unfolding inserted
  inserted-Capped ag sid row (ok ms) w h = h
  inserted-Capped ag sid row (err e) w h = h

  insert_into_session-Capped :
      (ag sid : String) (m : NewMessage) (w : World)
      → Capped cap w
      → Capped cap (insert_into_session ag sid m w).1
  unfolding insert_into_session
  insert_into_session-Capped ag sid m w h = inserted-Capped ag sid _ _ w h

module _ (cap : ℕ) (host : Host) where
  pub resolve-Capped :
      (sc : Scope) (d : ℕ) (w : World)
      → sc.source_depth ≡ some d
      → d < cap
      → Capped cap w
      → Capped cap (resolve host sc w).1
  unfolding resolve resolve_session create
  resolve-Capped sc d w e l h =
      elim (Bool-cases
        (is_user_scoped_session_mode sc.session_mode && not (truthy sc.owner_user_id))) [
          | inl refused ↦ rw refused h
          | inr fine ↦ elim (Option-cases (find_existing sc w)) [
            | inr (s, found) ↦ rw (fine, found) h
            | inl missing ↦
                rw (fine, missing)
                  ((Capped-bind cap
                    (on_central (
                      create_session
                        (new_session sc (String.◌++◌ "sess-" (host.gen w.draws)) host.now)))
                    _ (record w { draws = w.draws + 1 })
                    (create_session-Capped cap _ (record w { draws = w.draws + 1 })
                      (rw
                        (new_session-depth sc d (String.◌++◌ "sess-" (host.gen w.draws)) host.now e)
                        l)
                      h)
                    (λ x v k. k)))
          ]
        ]

  pub write_session_message-Capped :
      (ag sid : String) (m : NewMessage) (w : World)
      → Capped cap w
      → Capped cap (write_session_message host ag sid m w).1
  unfolding write_session_message update_session
  write_session_message-Capped ag sid m w h =
      Capped-bind cap (lift (host.extract_attachments ag sid m.id m.content)) _ w h (λ content v k.
        Capped-bind cap (insert_into_session ag sid (record m { content = content })) _ v
          (insert_into_session-Capped cap ag sid _ v k)
          (λ x u k'.
            Capped-update cap (λ s. s.id == sid)
              (record {
                status = none;
                container_status = none;
                last_active = some host.now;
                archived_at = none;
              })
              u.central.sessions k'))

  pub write_outbound_direct-Capped :
      (ag sid : String) (m : MessageOut) (w : World)
      → Capped cap w
      → Capped cap (write_outbound_direct host ag sid m w).1
  unfolding write_outbound_direct
  write_outbound_direct-Capped ag sid m w h = elim (Bool-cases (host.outbound_free w)) [
    | inl idle ↦ rw idle h
    | inr busy ↦ rw busy h
  ]

  pub wake_session-Capped :
      (id : String) (w : World) → Capped cap w → Capped cap (wake_session host id w).1
  unfolding wake_session
  wake_session-Capped id w h = elim (Bool-cases (is_null (get_session w.central id))) [
    | inl gone ↦ rw gone h
    | inr there ↦ rw there h
  ]
