-- ===== src/Router/DeliverSteps.antt =====
-- The steps of a delivery of src/router.ts, and what they write.
use multi_user_agent_platfor.Base.{
  ℕ, ◌+◌, Bool, true, false, not, ◌&&◌, Option, List, [], ◌∷◌, ◌++◌, append-nil, String, ◌==◌, ◌≡◌,
  refl, ◌∙◌, arith, if◌then◌else◌, truthy, Result, ok, err, is_null, Bool-cases, Option-cases, inl,
  inr, select, select-append,
}
use Prim.Native.String
use multi_user_agent_platfor.Host.{Host}
use multi_user_agent_platfor.Types.{
  Central, MessagingGroup, MessagingGroupAgent, MessageIn, MessageOut, InboundEvent, Session,
  SessionMode, is_user_scoped_session_mode,
}
use multi_user_agent_platfor.World.{World, InboxRow, pure, lift, on_central}
use multi_user_agent_platfor.SessionDb.Inbound.{NewMessage}
use multi_user_agent_platfor.Sessions.Table.{get_session, create_session, update_session}
use multi_user_agent_platfor.Sessions.Resolve.{
  Scope, new_session, create, find_existing, resolve_session,
}
use multi_user_agent_platfor.Sessions.Isolation.{resolve_session-Serves}
use multi_user_agent_platfor.Permissions.CommandGate.{GateResult, pass, filter, deny}
use multi_user_agent_platfor.Router.Deliver.{
  inserted, insert_into_session, write_session_message, write_outbound_direct, fresh_id,
  message_id_for_agent, resolve, channel_scope, deny_command, wake_session, hand_to_session, gate,
  by_gate, deliver_to_agent,
}
use multi_user_agent_platfor.Router.Quiet.{
  triggers, triggered, woken, SameAccess, Quiet, Quiet-on_central, Quiet-refl, Quiet-trans,
  Quiet-bind, Quiet-central, Quiet-emit,
}

create_session-SameAccess :
    (s : Session) (db db' : Central) → create_session s db ≡ ok db' → SameAccess db db'
unfolding create_session
create_session-SameAccess s db db' e = record {
  users = ground arith;
  user_roles = ground arith;
  agent_group_members = ground arith;
}

-- The session that is resolved belongs to the agent group that was asked for.
resolve-group :
    (host : Host) (sc : Scope) (w v : World) (s : Session) (c : Bool)
    → resolve host sc w ≡ (ok (s, c), v)
    → s.agent_group_id ≡ sc.agent_group_id
unfolding resolve
resolve-group host sc w v s c e = (resolve_session-Serves _ host.now sc w v s c e).group

module _ {g : String} {silent : Bool} where
  -- A row that does not trigger the agent group leaves its triggering rows alone.
  triggered-append :
      (w : World) (r : InboxRow)
      → triggers g r ≡ false
      → Quiet g silent w (record w { inbox = w.inbox ++ r ∷ [] })
  unfolding triggered woken select
  triggered-append w r h = record {
    access = record { users = refl; user_roles = refl; agent_group_members = refl };
    same = select-append (triggers g) w.inbox (r ∷ []) ∙ rw h (append-nil _);
    asleep = λ s. refl;
  }

  inserted-Quiet :
      (ag sid : String) (row : MessageIn) (r : Result (List MessageIn)) (w : World)
      → (ag == g && row.trigger) ≡ false
      → Quiet g silent w (inserted ag sid row r w).1
  unfolding inserted
  inserted-Quiet ag sid row (ok ms) w h = triggered-append w _ h
  inserted-Quiet ag sid row (err e) w h = Quiet-refl w

  insert_into_session-Quiet :
      (ag sid : String) (m : NewMessage) (w : World)
      → (ag == g && m.trigger) ≡ false
      → Quiet g silent w (insert_into_session ag sid m w).1
  unfolding insert_into_session
  insert_into_session-Quiet ag sid m w h = inserted-Quiet ag sid _ _ w h

  create_session-Quiet :
      (s : Session) (w : World) → Quiet g silent w (on_central (create_session s) w).1
  create_session-Quiet s w =
      Quiet-on_central (create_session s) w (create_session-SameAccess s w.central)

  draw-Quiet : (w : World) (n : ℕ) → Quiet g silent w (record w { draws = n })
  unfolding triggered woken
  draw-Quiet w n = record {
    access = record { users = refl; user_roles = refl; agent_group_members = refl };
    same = refl;
    asleep = λ s. refl;
  }

module _ {g : String} {silent : Bool} (host : Host) where
  resolve-Quiet : (sc : Scope) (w : World) → Quiet g silent w (resolve host sc w).1
  unfolding resolve resolve_session create
  resolve-Quiet sc w =
      elim (Bool-cases
        (is_user_scoped_session_mode sc.session_mode && not (truthy sc.owner_user_id))) [
          | inl refused ↦ rw refused (Quiet-refl w)
          | inr fine ↦ elim (Option-cases (find_existing sc w)) [
            | inr (s, found) ↦ rw (fine, found) (Quiet-refl w)
            | inl missing ↦
                rw (fine, missing)
                  (Quiet-trans (draw-Quiet w (w.draws + 1)) (
                    Quiet-bind
                      (on_central (
                        create_session
                          (new_session sc (String.◌++◌ "sess-" (host.gen w.draws)) host.now)))
                      _ _ (create_session-Quiet _ _) (λ x v e. Quiet-refl v)))
          ]
        ]

  fresh_id-Quiet : (prefix : String) (w : World) → Quiet g silent w (fresh_id host prefix w).1
  unfolding fresh_id
  fresh_id-Quiet prefix w = draw-Quiet w (w.draws + 1)

  message_id_for_agent-Quiet :
      (id ag : String) (w : World) → Quiet g silent w (message_id_for_agent host id ag w).1
  unfolding message_id_for_agent
  message_id_for_agent-Quiet id ag w = elim (Bool-cases (id == "")) [
    | inl blank ↦
        rw blank
          (Quiet-bind (fresh_id host "msg-") _ w (fresh_id-Quiet "msg-" w) (λ x v e. Quiet-refl v))
    | inr given ↦ rw given (Quiet-refl w)
  ]

  write_session_message-Quiet :
      (ag sid : String) (m : NewMessage) (w : World)
      → (ag == g && m.trigger) ≡ false
      → Quiet g silent w (write_session_message host ag sid m w).1
  unfolding write_session_message update_session
  write_session_message-Quiet ag sid m w h =
      Quiet-bind (lift (host.extract_attachments ag sid m.id m.content)) _ w (Quiet-refl w)
        (λ content v e.
          Quiet-bind (insert_into_session ag sid (record m { content = content })) _ v
            (insert_into_session-Quiet ag sid _ v h)
            (λ x u e'.
              Quiet-central u _
                (record { users = refl; user_roles = refl; agent_group_members = refl })))

  write_outbound_direct-Quiet :
      (ag sid : String) (m : MessageOut) (w : World)
      → Quiet g silent w (write_outbound_direct host ag sid m w).1
  unfolding write_outbound_direct triggered woken
  write_outbound_direct-Quiet ag sid m w = elim (Bool-cases (host.outbound_free w)) [
    | inl idle ↦ rw idle (record {
      access = record { users = refl; user_roles = refl; agent_group_members = refl };
      same = refl;
      asleep = λ s. refl;
    })
    | inr busy ↦ rw busy (Quiet-refl w)
  ]

  module _ (agent : MessagingGroupAgent) (mg : MessagingGroup) (event : InboundEvent)
      (u : Option String) (mode : SessionMode) where
    deny_command-Quiet :
        (command : String) (w : World)
        → Quiet g silent w (deny_command host agent mg event u mode command w).1
    unfolding deny_command
    deny_command-Quiet command w =
        Quiet-bind (resolve host (channel_scope host agent mg event u mode)) _ w (resolve-Quiet _ w)
          (λ found v e. Quiet-bind (fresh_id host "deny-") _ v (fresh_id-Quiet _ v) (λ id v' e'.
            Quiet-bind (write_outbound_direct host found.0.agent_group_id found.0.id _) _ v'
              (write_outbound_direct-Quiet _ _ _ v') (λ x y f. Quiet-refl y)))

    wake_session-Quiet :
        (b : Bool) (id : String) (w : World)
        → (silent && b) ≡ false
        → Quiet g silent w ((if b then wake_session host id else pure tt) w).1
    unfolding wake_session
    wake_session-Quiet false id w h = Quiet-refl w
    wake_session-Quiet true id w h = elim (Bool-cases (is_null (get_session w.central id))) [
      | inl gone ↦ rw gone (Quiet-refl w)
      | inr there ↦ rw there (Quiet-emit _ w (λ s. let k = rw s at h in cc))
    ]

    hand_to_session-Quiet :
        (wake : Bool) (w : World)
        → (agent.agent_group_id == g && wake) ≡ false
        → (silent && wake) ≡ false
        → Quiet g silent w (hand_to_session host agent mg event u mode wake w).1
    unfolding hand_to_session
    hand_to_session-Quiet wake w h k =
        elim (Bool-cases (is_user_scoped_session_mode mode && not (truthy u))) [
          | inl refused ↦ rw refused (Quiet-refl w)
          | inr fine ↦ rw fine (
              Quiet-bind (resolve host (channel_scope host agent mg event u mode)) _ w
                (resolve-Quiet _ w)
                (λ found v e.
                  Quiet-bind (message_id_for_agent host event.message.id agent.agent_group_id) _ v
                    (message_id_for_agent-Quiet _ _ v)
                    (λ id v' e'.
                      Quiet-bind (write_session_message host found.0.agent_group_id found.0.id _) _
                        v'
                        (write_session_message-Quiet _ _ _ v'
                          (rw (resolve-group host _ w v found.0 found.1 e) h))
                        (λ x y f. wake_session-Quiet wake found.0.id y k))))
        ]

    by_gate-Quiet :
        (r : GateResult) (wake : Bool) (w : World)
        → (agent.agent_group_id == g && wake) ≡ false
        → (silent && wake) ≡ false
        → Quiet g silent w (by_gate host r agent mg event u mode wake w).1
    unfolding by_gate
    by_gate-Quiet filter wake w h k = Quiet-refl w
    by_gate-Quiet (deny command) wake w h k = deny_command-Quiet command w
    by_gate-Quiet pass wake w h k = hand_to_session-Quiet wake w h k

    -- A delivery leaves the triggering rows of every other agent group alone, and those of its own
    -- where it is not to wake it; then it wakes no container.
    pub deliver_to_agent-Quiet :
        (wake : Bool) (w : World)
        → (agent.agent_group_id == g && wake) ≡ false
        → (silent && wake) ≡ false
        → Quiet g silent w (deliver_to_agent host agent mg event u mode wake w).1
    unfolding deliver_to_agent
    deliver_to_agent-Quiet wake w h k = by_gate-Quiet (gate host w.central agent event u) wake w h k
