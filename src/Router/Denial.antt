-- ===== src/Router/Denial.antt =====
-- What the gates of the fan-out of src/router.ts say to a sender without access.
use multi_user_agent_platfor.Base.{
  Bool, true, false, ◌&&◌, Option, String, ◌≡◌, refl, arith, truthy, coalesce, ok, Bool-cases, inl,
  inr,
}
use multi_user_agent_platfor.Host.{Host}
use multi_user_agent_platfor.Types.{
  Central, MessagingGroup, MessagingGroupAgent, InboundEvent, is_public, scope_is_all,
}
use multi_user_agent_platfor.World.{World}
use multi_user_agent_platfor.Permissions.Access.{
  AccessDecision, allowed, denied, is_allowed, can_access_agent_group,
}
use multi_user_agent_platfor.Permissions.Roles.{
  get_user, is_owner, is_global_admin, is_admin_of_agent_group,
}
use multi_user_agent_platfor.Permissions.Members.{is_member, has_membership_row}
use multi_user_agent_platfor.Permissions.Gates.{
  AccessGateResult, passes, sender_scope_gate, scope_result,
}
use multi_user_agent_platfor.Router.Fanout.{ask_access_gate, ask_scope_gate}
use multi_user_agent_platfor.Router.Quiet.{SameAccess}
use multi_user_agent_platfor.Router.GateSteps.{access_gate-denies}

-- The access rules admit the sender to the agent group.
abbrev pub has_access : Central → Option String → String → Bool
has_access db u g = truthy u && is_allowed (can_access_agent_group db (coalesce u "") g)

-- The wiring is not open to everybody: the chat is not public, or known senders are asked for.
abbrev pub Closed : MessagingGroup → MessagingGroupAgent → Type 0
Closed mg a = (is_public mg.unknown_sender_policy && scope_is_all a.sender_scope) ≡ false

pub has_access-SameAccess :
    (db db' : Central) (u : Option String) (g : String)
    → SameAccess db db'
    → has_access db' u g ≡ has_access db u g
unfolding can_access_agent_group get_user is_owner is_global_admin is_admin_of_agent_group is_member
    has_membership_row
has_access-SameAccess db db' u g s = rw (s.users, s.user_roles, s.agent_group_members) refl

passes-scope_result : (d : AccessDecision) → passes (scope_result d) ≡ is_allowed d
passes-scope_result (allowed _) = refl
passes-scope_result (denied _) = refl

scope_gate-denies :
    (agent : MessagingGroupAgent) (u : Option String) (db : Central)
    → scope_is_all agent.sender_scope ≡ false
    → has_access db u agent.agent_group_id ≡ false
    → passes (sender_scope_gate db u agent) ≡ false
unfolding sender_scope_gate
scope_gate-denies agent u db k h =
    ground
      (arith, passes-scope_result (can_access_agent_group db (coalesce u "") agent.agent_group_id))

module _ (host : Host) (event : InboundEvent) (mg : MessagingGroup) (u : Option String) where
  pub ask_scope_gate-answers :
      (agent : MessagingGroupAgent) (w : World)
      → host.permissions ≡ true
      → ask_scope_gate host event mg u agent w ≡ (ok (sender_scope_gate w.central u agent), w)
  unfolding ask_scope_gate
  ask_scope_gate-answers agent w there = rw there refl

  -- Without access the gates refuse, in a chat that is not public or for a wiring to known senders.
  pub gates-refuse :
      (agent : MessagingGroupAgent) (w v : World) (a : AccessGateResult)
      → host.permissions ≡ true
      → (is_public mg.unknown_sender_policy && scope_is_all agent.sender_scope) ≡ false
      → has_access w.central u agent.agent_group_id ≡ false
      → has_access v.central u agent.agent_group_id ≡ false
      → ask_access_gate host event mg u agent.agent_group_id w ≡ (ok a, v)
      → (passes a && passes (sender_scope_gate v.central u agent)) ≡ false
  unfolding ask_access_gate
  gates-refuse agent w v a there closed no_access later e =
      elim (Bool-cases (is_public mg.unknown_sender_policy)) [
        | inr private ↦
            let p : passes a ≡ false =
              access_gate-denies host.engine host.now event u mg agent.agent_group_id w v a private
                no_access (rw there at e) in
            rw p refl
        | inl open_chat ↦
            let q : passes (sender_scope_gate v.central u agent) ≡ false =
              scope_gate-denies agent u v.central (rw open_chat at closed) later in
            ground arith
      ]
