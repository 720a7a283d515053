-- ===== src/ChannelApproval/Authority.antt =====
-- What the registration of channels promises.
use multi_user_agent_platfor.Base.{
  Bool, true, false, ◌||◌, Option, none, some, String, ◌==◌, ◌≡◌, ◌≢◌, refl, sym, ap, arith, truthy,
  coalesce, find-delete_where, ok, Bool-cases, Option-cases, inl, inr,
}
use multi_user_agent_platfor.Types.{
  Central, AgentGroup, AgentGroupMember, InboundEvent, PendingChannelApproval,
}
use multi_user_agent_platfor.World.{World, bind-eq-ok, on_central-eq-ok}
use multi_user_agent_platfor.Permissions.Members.{add_member, has_membership_row}
use multi_user_agent_platfor.Permissions.Approval.{add_member-adds}
use multi_user_agent_platfor.Permissions.Gates.{extract_and_upsert_user}
use multi_user_agent_platfor.Permissions.SenderApproval.{ResponsePayload, clicker_id}
use multi_user_agent_platfor.Router.Fanout.{get_agent_group}
use multi_user_agent_platfor.Router.Deliver.{fresh_id}
use multi_user_agent_platfor.Wiring.Wire.{create_messaging_group_agent}
use multi_user_agent_platfor.ChannelApproval.Rows.{
  get_pending_channel_approval, delete_pending_channel_approval,
}
use multi_user_agent_platfor.ChannelApproval.Response.{
  Desk, may_decide, new_wiring, admit_sender, wire_and_replay, connect_event, connect_to, connect,
  by_value, answer_card, handle_channel_approval_response,
}

module _ (desk : Desk) where
  -- A response changes the platform only where the chat's card is pending and the clicker is the
  -- approver who was asked or has an admin privilege over the agent group of the request.
  pub channel_response-needs_authority :
      (p : ResponsePayload) (w : World)
      → (handle_channel_approval_response desk p w).1 ≢ w
      → (row : PendingChannelApproval) × (get_pending_channel_approval w.central p.question_id
          ≡ some row)
        × (may_decide w.central (clicker_id p) row ≡ true)
  unfolding handle_channel_approval_response answer_card
  channel_response-needs_authority p w moved =
      elim (Option-cases (get_pending_channel_approval w.central p.question_id)) [
        | inl gone ↦ absurd (moved (rw gone refl))
        | inr (row, found) ↦ elim (Bool-cases (may_decide w.central (clicker_id p) row)) [
          | inl authorised ↦ (row, found, authorised)
          | inr stranger ↦ absurd (moved (rw (found, stranger) refl))
        ]
      ]

  -- Whether a sender, where there is one, is a member.
  abbrev pub AdmittedTo : Central → String → Option String → Type 0
  AdmittedTo db target sender =
      truthy sender ≡ true → has_membership_row db (coalesce sender "") target ≡ true

  admit_sender-admits :
      (sender approver : Option String) (target : String) (w v : World) (x : Unit {0})
      → admit_sender desk sender target approver w ≡ (ok x, v)
      → AdmittedTo v.central target sender
  admit_sender-admits sender approver target w v x e t =
      let m : AgentGroupMember = record {
        user_id = coalesce sender "";
        agent_group_id = target;
        added_by = approver;
        added_at = desk.host.now;
      } in
      add_member-adds m w.central v.central
        (on_central-eq-ok (add_member m) w v {x = x} (rw t at e))

  -- The world in which the message is routed again: the card is gone, and the sender is a member.
  wire_and_replay-admits :
      (row : PendingChannelApproval) (target : String) (approver : Option String)
      (event : InboundEvent) (w w' : World) (claimed : Bool)
      → wire_and_replay desk row target approver event w ≡ (ok claimed, w')
      → (v : World) × (u : World) × (sender : Option String) × ((extract_and_upsert_user
            desk.host.engine desk.host.now event u).0
          ≡ ok sender)
        × (w' ≡ desk.replay event v)
        × AdmittedTo v.central target sender
        × (get_pending_channel_approval v.central row.messaging_group_id ≡ none)
  unfolding wire_and_replay has_membership_row delete_pending_channel_approval
      get_pending_channel_approval
  wire_and_replay-admits row target approver event w w' claimed e =
      let (id, w1, e1, r1) = bind-eq-ok (fresh_id desk.host "mga-") _ w e in
      let (x, w2, e2, r2) =
        bind-eq-ok
          (create_messaging_group_agent desk.host.engine (new_wiring desk row target event id)) _ w1
          r1 in
      let (sender, w3, e3, r3) =
        bind-eq-ok (extract_and_upsert_user desk.host.engine desk.host.now event) _ w2 r2 in
      let (y, w4, e4, r4) = bind-eq-ok (admit_sender desk sender target approver) _ w3 r3 in
      (
        record w4 { central = delete_pending_channel_approval row.messaging_group_id w4.central },
        w2,
        sender,
        ap (λ r. r.0) e3,
        sym (ap (λ r. r.1) r4),
        admit_sender-admits sender approver target w3 w4 y e4,
        find-delete_where (λ r. r.messaging_group_id == row.messaging_group_id)
            (λ r. r.messaging_group_id == row.messaging_group_id)
            w4.central.pending_channel_approvals (λ r h. h),
      )

  -- Where an authorised clicker connects a chat to an agent group that exists and the response is
  -- handled, the world in which the held message is routed again has its sender, where the message
  -- names one, as a member of the agent group, and the chat's card is gone.
  pub connect-admits :
      (p : ResponsePayload) (w w' : World) (row : PendingChannelApproval) (target : String)
      (group : AgentGroup) (event : InboundEvent) (claimed : Bool)
      → get_pending_channel_approval w.central p.question_id ≡ some row
      → may_decide w.central (clicker_id p) row ≡ true
      → (p.value == "reject" || p.value == "choose_existing" || p.value == "new_agent") ≡ false
      → desk.after_prefix "connect:" p.value ≡ some target
      → get_agent_group w.central target ≡ some group
      → desk.parse_event row.original_message ≡ some event
      → handle_channel_approval_response desk p w ≡ (ok claimed, w')
      → (v : World) × (u : World) × (sender : Option String) × ((extract_and_upsert_user
            desk.host.engine desk.host.now event u).0
          ≡ ok sender)
        × (w' ≡ desk.replay event v)
        × AdmittedTo v.central target sender
        × (get_pending_channel_approval v.central row.messaging_group_id ≡ none)
  unfolding handle_channel_approval_response answer_card by_value connect connect_to connect_event
  connect-admits p w w' row target group event claimed found authorised value prefix there parsed
        e =
      let a : (p.value == "reject") ≡ false = ground arith in
      let b : (p.value == "choose_existing") ≡ false = ground arith in
      let c : (p.value == "new_agent") ≡ false = ground arith in
      wire_and_replay-admits row target (clicker_id p) event w w' claimed
        (rw (found, authorised, a, b, c, prefix, there, parsed) at e)
