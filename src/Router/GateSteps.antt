-- ===== src/Router/GateSteps.antt =====
-- The gates of src/modules/permissions/index.ts as steps of the router, and what they write.
use multi_user_agent_platfor.Base.{
  ℕ, Bool, true, false, Option, none, String, ◌&&◌, ◌≡◌, refl, arith, if◌then◌else◌, truthy,
  coalesce, ok, Json, Bool-cases, inl, inr, property, bind_text,
}
use multi_user_agent_platfor.Engine.{TextEngine}
use multi_user_agent_platfor.Types.{
  MessagingGroup, InboundEvent, UnknownSenderPolicy, strict, request_approval, public, is_public,
}
use multi_user_agent_platfor.World.{World, pure, bind-eq-ok, emit, lift, request_sender_approval}
use multi_user_agent_platfor.DroppedMessages.{record_dropped_message}
use multi_user_agent_platfor.Permissions.Access.{
  AccessDecision, allowed, denied, is_allowed, can_access_agent_group,
}
use multi_user_agent_platfor.Permissions.Gates.{
  AccessGateResult, passes, drop_unknown, drop_by_policy, by_decision, handle_unknown_sender,
  access_gate, refuse, deny_text, safe_parse_content,
}
use multi_user_agent_platfor.Router.Quiet.{Quiet, Quiet-refl, Quiet-bind, Quiet-central, Quiet-emit}

module _ {g : String} {silent : Bool} (engine : TextEngine) (now : ℕ) where
  drop_unknown-Quiet :
      (mg : MessagingGroup) (u : Option String) (ag : String) (event : InboundEvent)
      (sender : Option Json) (w : World)
      → Quiet g silent w (drop_unknown engine now mg u ag event sender w).1
  unfolding drop_unknown record_dropped_message
  drop_unknown-Quiet mg u ag event sender w =
      Quiet-bind (lift (bind_text sender)) _ w (Quiet-refl w) (λ n v e.
        Quiet-central v _ (record { users = refl; user_roles = refl; agent_group_members = refl }))

  drop_by_policy-Quiet :
      (p : UnknownSenderPolicy) (mg : MessagingGroup) (u : Option String) (ag : String)
      (event : InboundEvent) (sender : Option Json) (w : World)
      → Quiet g silent w (drop_by_policy engine now p mg u ag event sender w).1
  unfolding drop_by_policy
  drop_by_policy-Quiet strict mg u ag event sender w =
      Quiet-bind (drop_unknown engine now mg u ag event sender) _ w
        (drop_unknown-Quiet mg u ag event sender w) (λ n v e. Quiet-refl v)
  drop_by_policy-Quiet request_approval mg u ag event sender w =
      Quiet-bind (drop_unknown engine now mg u ag event sender) _ w
        (drop_unknown-Quiet mg u ag event sender w) (λ n v e. ask n v (truthy u))
    where
      ask :
          (n : Option String) (v : World) (b : Bool)
          → Quiet g silent v
              ((if b
                  then emit (request_sender_approval mg.id ag (coalesce u "") n event)
                  else pure tt)
                v).1
      ask n v true = Quiet-emit _ v (λ s. refl)
      ask n v false = Quiet-refl v
  drop_by_policy-Quiet public mg u ag event sender w = Quiet-refl w

  pub handle_unknown_sender-Quiet :
      (mg : MessagingGroup) (u : Option String) (ag : String) (event : InboundEvent) (w : World)
      → Quiet g silent w (handle_unknown_sender engine now mg u ag event w).1
  unfolding handle_unknown_sender
  handle_unknown_sender-Quiet mg u ag event w =
      Quiet-bind (lift (property "sender" (safe_parse_content engine now event.message.content))) _
        w (Quiet-refl w) (λ s v e. drop_by_policy-Quiet mg.unknown_sender_policy mg u ag event s v)

  by_decision-Quiet :
      (d : AccessDecision) (event : InboundEvent) (u : Option String) (mg : MessagingGroup)
      (ag : String) (w : World)
      → Quiet g silent w (by_decision engine now d event u mg ag w).1
  unfolding by_decision
  by_decision-Quiet (allowed _) event u mg ag w = Quiet-refl w
  by_decision-Quiet (denied r) event u mg ag w =
      Quiet-bind (handle_unknown_sender engine now mg u ag event) _ w
        (handle_unknown_sender-Quiet mg u ag event w) (λ x v e. Quiet-refl v)

  -- The gate itself moves nothing.
  pub access_gate-Quiet :
      (event : InboundEvent) (u : Option String) (mg : MessagingGroup) (ag : String) (w : World)
      → Quiet g silent w (access_gate engine now event u mg ag w).1
  unfolding access_gate
  access_gate-Quiet event u mg ag w = elim (Bool-cases (is_public mg.unknown_sender_policy)) [
    | inl p ↦ rw p (Quiet-refl w)
    | inr n ↦ elim (Bool-cases (truthy u)) [
      | inr bare ↦
          rw (n, bare)
            (Quiet-bind (handle_unknown_sender engine now mg none ag event) _ w
              (handle_unknown_sender-Quiet mg none ag event w) (λ x v e. Quiet-refl v))
      | inl named ↦ rw (n, named) (by_decision-Quiet _ event u mg ag w)
    ]
  ]

module _ (engine : TextEngine) (now : ℕ) where
  by_decision-denies :
      (d : AccessDecision) (event : InboundEvent) (u : Option String) (mg : MessagingGroup)
      (ag : String) (w v : World) (a : AccessGateResult)
      → is_allowed d ≡ false
      → by_decision engine now d event u mg ag w ≡ (ok a, v)
      → passes a ≡ false
  unfolding by_decision
  by_decision-denies (allowed _) event u mg ag w v a h e = cc
  by_decision-denies (denied r) event u mg ag w v a h e =
      let (x, y, p, q) =
        bind-eq-ok (handle_unknown_sender engine now mg u ag event)
          (λ _. pure (refuse (deny_text r))) w e in
      ground arith

  -- A sender that the access rules deny does not pass, whatever the handling of the drop does.
  pub access_gate-denies :
      (event : InboundEvent) (u : Option String) (mg : MessagingGroup) (ag : String) (w v : World)
      (a : AccessGateResult)
      → is_public mg.unknown_sender_policy ≡ false
      → (truthy u && is_allowed (can_access_agent_group w.central (coalesce u "") ag)) ≡ false
      → access_gate engine now event u mg ag w ≡ (ok a, v)
      → passes a ≡ false
  unfolding access_gate
  access_gate-denies event u mg ag w v a p h e = elim (Bool-cases (truthy u)) [
    | inl named ↦
        by_decision-denies (can_access_agent_group w.central (coalesce u "") ag) event u mg ag w v a
          (rw named at h) (rw (p, named) at e)
    | inr anonymous ↦
        let (x, y, f, q) =
          bind-eq-ok (handle_unknown_sender engine now mg none ag event)
            (λ _. pure (refuse "unknown_user")) w (rw (p, anonymous) at e) in
        ground arith
  ]
