-- ===== src/Permissions/Approval.antt =====
-- What the approval of unknown senders promises (src/modules/permissions/index.ts, sender-approval.ts).
use multi_user_agent_platfor.Base.{
  ℕ, Bool, true, false, Option, none, some, [], ◌∷◌, ◌++◌, String, ◌==◌, ◌≡◌, ◌≢◌, ◌⊎◌, inl, inr,
  refl, sym, subst, ap, ◌∙◌, arith, eq_iff, eq_refl, exists, find, In, In-append, find-eq-some,
  find-delete_where, exists-append, Result, ok, err, Bool-cases, Option-cases,
}
use multi_user_agent_platfor.Types.{
  Central, AgentGroupMember, PendingSenderApproval, InboundEvent, MessagingGroup,
}
use multi_user_agent_platfor.World.{World, bind-eq-ok, on_central, stored, on_central-eq-ok}
use multi_user_agent_platfor.Permissions.Roles.{has_admin_privilege}
use multi_user_agent_platfor.Permissions.Members.{add_member, member_at, has_membership_row}
use multi_user_agent_platfor.Permissions.Approvers.{Reachable, pick_approver}
use multi_user_agent_platfor.Permissions.Picking.{
  pick_approver-eq-privileged, pick_approval_delivery-picked,
}
use multi_user_agent_platfor.Permissions.SenderApproval.{
  create_pending_sender_approval, get_pending_sender_approval, has_in_flight_sender_approval,
  delete_pending_sender_approval, ApprovalRequest, approval_target, ask, ask_for_approval,
  ResponsePayload, clicker_id, is_authorized, settle, respond_to, handle_sender_approval_response,
}

appended :
    (r : PendingSenderApproval) (db db' : Central)
    → create_pending_sender_approval r db ≡ ok db'
    → db'.pending_sender_approvals ≡ db.pending_sender_approvals ++ r ∷ []
unfolding create_pending_sender_approval
appended r db db' e = ground arith

created :
    (r row : PendingSenderApproval) (w : World)
    → In row (on_central (create_pending_sender_approval r) w).1.central.pending_sender_approvals
    → In row w.central.pending_sender_approvals ⊎ (row ≡ r)
created r row w m = go (create_pending_sender_approval r w.central) refl m
  where
    go :
        (res : Result Central)
        → create_pending_sender_approval r w.central ≡ res
        → In row (stored w res).1.central.pending_sender_approvals
        → In row w.central.pending_sender_approvals ⊎ (row ≡ r)
    go (err e) h k = inl k
    go (ok db) h k =
        elim (In-append w.central.pending_sender_approvals (r ∷ []) row
          (rw (appended r w.central db h) at k)) [
            | inl old ↦ inl old
            | inr (inl new) ↦ inr new
            | inr (inr none_left) ↦ absurd none_left
          ]

module _ (dm : String → Option MessagingGroup) (ct : String → Option String)
    (stringify_event : InboundEvent → String) (gen : ℕ → String) where
  target-privileged :
      (q : ApprovalRequest) (db : Central) (r : Reachable)
      → q.agent_group_id ≢ ""
      → approval_target dm ct stringify_event gen q db ≡ some r
      → has_admin_privilege db r.user_id q.agent_group_id ≡ true
  unfolding approval_target
  target-privileged q db r n e =
      elim (Bool-cases (has_in_flight_sender_approval db q.messaging_group_id q.sender_identity)) [
        | inl pending ↦ let k = rw pending at e in cc
        | inr quiet ↦
            (pick_approver-eq-privileged db q.agent_group_id r.user_id n).0
              (pick_approval_delivery-picked dm ct (pick_approver db (some q.agent_group_id)) _ r
                (rw quiet at e)).0
      ]

  target-fresh :
      (q : ApprovalRequest) (db : Central) (r : Reachable)
      → approval_target dm ct stringify_event gen q db ≡ some r
      → has_in_flight_sender_approval db q.messaging_group_id q.sender_identity ≡ false
  unfolding approval_target
  target-fresh q db r e =
      elim (Bool-cases (has_in_flight_sender_approval db q.messaging_group_id q.sender_identity)) [
        | inl pending ↦ let k = rw pending at e in cc
        | inr quiet ↦ quiet
      ]

  -- For an agent group whose id is not the empty text, a row that the request adds names an
  -- approver with an admin privilege over the group, and no row for its chat and sender was
  -- pending before.
  pub ask_for_approval-asks_privileged :
      (q : ApprovalRequest) (w : World) (row : PendingSenderApproval)
      → q.agent_group_id ≢ ""
      → In row (ask_for_approval dm ct stringify_event gen q w).1.central.pending_sender_approvals
      → In row w.central.pending_sender_approvals
        ⊎ ((has_admin_privilege w.central row.approver_user_id q.agent_group_id ≡ true)
            × (has_in_flight_sender_approval w.central row.messaging_group_id row.sender_identity
                ≡ false))
  unfolding ask_for_approval ask
  ask_for_approval-asks_privileged q w row n m =
      elim (Option-cases (approval_target dm ct stringify_event gen q w.central)) [
        | inl nobody ↦ inl (rw nobody at m)
        | inr (r, picked) ↦ elim (created _ row _ (rw picked at m)) [
          | inl old ↦ inl old
          | inr new ↦
              inr (
                rw new
                  (target-privileged q w.central r n picked, target-fresh q w.central r picked))
        ]
      ]

pub add_member-adds :
    (m : AgentGroupMember) (db db' : Central)
    → add_member m db ≡ ok db'
    → has_membership_row db' m.user_id m.agent_group_id ≡ true
unfolding add_member has_membership_row exists
add_member-adds m db db' e =
    elim (Bool-cases (exists (member_at m.user_id m.agent_group_id) db.agent_group_members)) [
      | inl there ↦ ground arith
      | inr new ↦
          let k : db'.agent_group_members ≡ db.agent_group_members ++ m ∷ [] = ground arith in
          rw k (
            exists-append (member_at m.user_id m.agent_group_id) db.agent_group_members (m ∷ [])
            ∙ ground (arith, eq_refl m.user_id, eq_refl m.agent_group_id))
    ]

module _ (now : ℕ) (replay : String → World → World) where
  -- A response changes the platform only where its card is pending and the clicker is the
  -- approver who was asked or has an admin privilege over the agent group.
  pub response-needs_authority :
      (p : ResponsePayload) (w : World)
      → (handle_sender_approval_response now replay p w).1 ≢ w
      → (row : PendingSenderApproval) × (get_pending_sender_approval w.central p.question_id
          ≡ some row)
        × (is_authorized w.central (clicker_id p) row ≡ true)
  unfolding handle_sender_approval_response respond_to
  response-needs_authority p w moved =
      elim (Option-cases (get_pending_sender_approval w.central p.question_id)) [
        | inl gone ↦ absurd (moved (rw gone refl))
        | inr (row, found) ↦ elim (Bool-cases (is_authorized w.central (clicker_id p) row)) [
          | inl authorised ↦ (row, found, authorised)
          | inr stranger ↦ absurd (moved (rw (found, stranger) refl))
        ]
      ]

  admitted :
      (row : PendingSenderApproval) (clicker : Option String) (w w' : World) (claimed : Bool)
      → settle now replay row clicker true w ≡ (ok claimed, w')
      → (v : World) × (w' ≡ replay row.original_message v)
        × (has_membership_row v.central row.sender_identity row.agent_group_id ≡ true)
        × (get_pending_sender_approval v.central row.id ≡ none)
  unfolding settle has_membership_row delete_pending_sender_approval get_pending_sender_approval
  admitted row clicker w w' claimed e =
      let m : AgentGroupMember = record {
        user_id = row.sender_identity;
        agent_group_id = row.agent_group_id;
        added_by = clicker;
        added_at = now;
      } in
      let (x, v, p, q) = bind-eq-ok (on_central (add_member m)) _ w e in
      (
        record v { central = delete_pending_sender_approval row.id v.central },
        sym (ap (λ r. r.1) q),
        add_member-adds m w.central v.central (on_central-eq-ok (add_member m) w v p),
        find-delete_where (λ r. r.id == row.id) (λ r. r.id == row.id)
            v.central.pending_sender_approvals (λ r h. h),
      )

  -- Where an authorised clicker approves and the response is handled, the world in which the held
  -- message is routed again has the sender as a member of the agent group, and the card is gone.
  pub approve-admits :
      (p : ResponsePayload) (w w' : World) (row : PendingSenderApproval) (claimed : Bool)
      → get_pending_sender_approval w.central p.question_id ≡ some row
      → is_authorized w.central (clicker_id p) row ≡ true
      → (p.value == "approve") ≡ true
      → handle_sender_approval_response now replay p w ≡ (ok claimed, w')
      → (v : World) × (w' ≡ replay row.original_message v)
        × (has_membership_row v.central row.sender_identity row.agent_group_id ≡ true)
        × (get_pending_sender_approval v.central p.question_id ≡ none)
  unfolding handle_sender_approval_response respond_to get_pending_sender_approval
  approve-admits p w w' row claimed found authorised approved e =
      let (v, a, b, c) =
        admitted row (clicker_id p) w w' claimed (rw (found, authorised, approved) at e) in
      let same : row.id ≡ p.question_id = ground (
        arith,
        eq_iff row.id p.question_id,
        find-eq-some (λ r. r.id == p.question_id) w.central.pending_sender_approvals found,
      ) in
      (v, a, b, subst (λ i. find (λ r. r.id == i) v.central.pending_sender_approvals ≡ none) same c)
