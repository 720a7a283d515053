-- ===== src/Router/Safety.antt =====
-- What the fan-out of src/router.ts promises about senders without access.
use multi_user_agent_platfor.Base.{
  Bool, true, false, not, ◌&&◌, Option, List, [], ◌∷◌, String, ◌==◌, ◌≡◌, refl, ◌∙◌, subst, arith,
  eq_iff, if◌then◌else◌, coalesce, is_null, All, ok, Json, Bool-cases, inl, inr, ◌⊎◌, All-of_In,
  All-In,
}
use multi_user_agent_platfor.Host.{Host}
use multi_user_agent_platfor.Types.{
  MessagingGroup, MessagingGroupAgent, InboundEvent, SessionMode, accumulates,
}
use multi_user_agent_platfor.World.{World, pure, subscribe}
use multi_user_agent_platfor.Permissions.Gates.{AccessGateResult, passes, sender_scope_gate}
use multi_user_agent_platfor.Router.Fanout.{
  Tally, ask_access_gate, maybe_subscribe, engage_agent, accumulate_for, count_denied,
  should_subscribe, engages, identity_ok, get_agent_group, gate_agent, try_agent, fan_out,
}
use multi_user_agent_platfor.Router.Quiet.{
  triggered, woken, SameAccess, Quiet, Quiet-refl, Quiet-bind, Quiet-emit, Quiet-if,
}
use multi_user_agent_platfor.Router.GateSteps.{access_gate-Quiet}
use multi_user_agent_platfor.Router.Deliver.{deliver_to_agent}
use multi_user_agent_platfor.Router.DeliverSteps.{deliver_to_agent-Quiet}
use multi_user_agent_platfor.Router.Denial.{
  Closed, ask_scope_gate-answers, gates-refuse, has_access, has_access-SameAccess,
}

-- The group is the one of interest, or every group is.
abbrev Watched : String → Bool → MessagingGroupAgent → Type 0
Watched g silent agent = (agent.agent_group_id ≡ g) ⊎ (silent ≡ true)

-- The wiring is closed and the access rules deny the sender, if the group is watched.
abbrev Shut : String → Bool → MessagingGroup → Option String → World → MessagingGroupAgent → Type 0
Shut g silent mg u w agent =
    Watched g silent agent → Closed mg agent × (has_access w.central u agent.agent_group_id ≡ false)

Shut-later :
    (g : String) (silent : Bool) (mg : MessagingGroup) (u : Option String) (w v : World)
    (agent : MessagingGroupAgent)
    → SameAccess w.central v.central
    → Shut g silent mg u w agent
    → Shut g silent mg u v agent
Shut-later g silent mg u w v agent same shut watched =
    let (closed, now_denied) = shut watched in
    (closed, has_access-SameAccess w.central v.central u agent.agent_group_id same ∙ now_denied)

module _ {g : String} {silent : Bool} (host : Host) (event : InboundEvent) (mg : MessagingGroup)
    (u : Option String) where
  maybe_subscribe-Quiet :
      (agent : MessagingGroupAgent) (t : Tally) (w : World)
      → Quiet g silent w (maybe_subscribe host event mg u agent t w).1
  unfolding maybe_subscribe
  maybe_subscribe-Quiet agent t w = elim (Bool-cases (should_subscribe host event mg u agent t)) [
    | inl asked ↦
        rw asked
          (Quiet-emit (subscribe event.platform_id (coalesce event.thread_id "")) w (λ s. refl))
    | inr not_asked ↦ rw not_asked (Quiet-refl w)
  ]

  ask_access_gate-Quiet :
      (ag : String) (w : World) → Quiet g silent w (ask_access_gate host event mg u ag w).1
  unfolding ask_access_gate
  ask_access_gate-Quiet ag w = elim (Bool-cases host.permissions) [
    | inl there ↦ rw there (access_gate-Quiet host.engine host.now event u mg ag w)
    | inr bare ↦ rw bare (Quiet-refl w)
  ]

  engage_agent-Quiet :
      (agent : MessagingGroupAgent) (mode : SessionMode) (t : Tally) (w : World)
      → (agent.agent_group_id == g) ≡ false
      → silent ≡ false
      → Quiet g silent w (engage_agent host event mg u agent mode t w).1
  unfolding engage_agent
  engage_agent-Quiet agent mode t w h k =
      Quiet-bind (deliver_to_agent host agent mg event u mode true) _ w
        (deliver_to_agent-Quiet host agent mg event u mode true w (ground arith) (ground arith))
        (λ x v e. maybe_subscribe-Quiet agent _ v)

  accumulate_for-Quiet :
      (agent : MessagingGroupAgent) (mode : SessionMode) (t : Tally) (w : World)
      → Quiet g silent w (accumulate_for host event mg u agent mode t w).1
  unfolding accumulate_for
  accumulate_for-Quiet agent mode t w =
      Quiet-bind (deliver_to_agent host agent mg event u mode false) _ w
        (deliver_to_agent-Quiet host agent mg event u mode false w (ground arith) (ground arith))
        (λ x v e. Quiet-refl v)

  after_gates-Quiet :
      (agent : MessagingGroupAgent) (mode : SessionMode) (t : Tally) (w : World) (b : Bool)
      → (Watched g silent agent → b ≡ false)
      → Quiet g silent w
          ((if b
              then engage_agent host event mg u agent mode t
              else pure (count_denied host event mg u true t))
            w).1
  after_gates-Quiet agent mode t w false h = Quiet-refl w
  after_gates-Quiet agent mode t w true h =
      engage_agent-Quiet agent mode t w
        (elim (Bool-cases (agent.agent_group_id == g)) [
          | inl same ↦ let k = h (inl ((eq_iff agent.agent_group_id g).0 same)) in cc
          | inr other ↦ other
        ])
        (elim (Bool-cases silent) [ inl quiet ↦ let k = h (inr quiet) in cc | inr loud ↦ loud ])

  gate_agent-Quiet :
      (agent : MessagingGroupAgent) (mode : SessionMode) (t : Tally) (w : World)
      → host.permissions ≡ true
      → Shut g silent mg u w agent
      → Quiet g silent w (gate_agent host event mg u agent mode t w).1
  unfolding gate_agent
  gate_agent-Quiet agent mode t w there shut =
      Quiet-bind (ask_access_gate host event mg u agent.agent_group_id) _ w
        (ask_access_gate-Quiet _ w)
        (λ a v e. rw (ask_scope_gate-answers host event mg u agent v there) (
          after_gates-Quiet agent mode t v
            (passes a && passes (sender_scope_gate v.central u agent))
            (λ watched.
              let (closed, now_denied) = shut watched in
              let (again, later_denied) =
                Shut-later g silent mg u w v agent (moved v a e) shut watched in
              gates-refuse host event mg u agent w v a there closed now_denied later_denied e)))
    where
      moved :
          (v : World) (a : AccessGateResult)
          → ask_access_gate host event mg u agent.agent_group_id w ≡ (ok a, v)
          → SameAccess w.central v.central
      moved v a e =
          (subst (λ r. Quiet g silent w r.1) e
            (ask_access_gate-Quiet agent.agent_group_id w)).access

  try_agent-Quiet :
      (text : Json) (agent : MessagingGroupAgent) (t : Tally) (w : World)
      → host.permissions ≡ true
      → Shut g silent mg u w agent
      → Quiet g silent w (try_agent host event mg u text agent t w).1
  unfolding try_agent
  try_agent-Quiet text agent t w there shut =
      Quiet-if (is_null (get_agent_group w.central agent.agent_group_id)) (pure t w) _
        (Quiet-refl w)
        (Quiet-if
          (engages host event mg u text agent w.central && identity_ok host event mg u agent)
          (gate_agent host event mg u agent _ t w) _ (gate_agent-Quiet agent _ t w there shut)
          (Quiet-if
            (identity_ok host event mg u agent
              && accumulates agent.ignored_message_policy
              && not (engages host event mg u text agent w.central))
            (accumulate_for host event mg u agent _ t w) (pure t w)
            (accumulate_for-Quiet agent _ t w) (Quiet-refl w)))

  fan_out-Quiet :
      (text : Json) (agents : List MessagingGroupAgent) (t : Tally) (w : World)
      → host.permissions ≡ true
      → All (Shut g silent mg u w) agents
      → Quiet g silent w (fan_out host event mg u text agents t w).1
  unfolding fan_out
  fan_out-Quiet text [] t w there shut = Quiet-refl w
  fan_out-Quiet text (a ∷ agents) t w there (s, shut) =
      Quiet-bind (try_agent host event mg u text a t) _ w (try_agent-Quiet text a t w there s)
        (λ next v e. fan_out-Quiet text agents next v there (
          All-of_In (Shut g silent mg u v) agents (λ b m.
            Shut-later g silent mg u w v b
              (subst (λ r. Quiet g silent w r.1) e (try_agent-Quiet text a t w there s)).access
              (All-In (Shut g silent mg u w) agents b shut m))))

-- A message of a sender whom the access rules deny for an agent group never becomes a row that
-- starts that group's agent: where the permissions module is installed and every wiring of the group
-- to the chat is closed (the chat is not public, or the wiring asks for known senders), the fan-out
-- over any wirings leaves the rows of the group's inboxes that start its agent as they were.
fan_out-spares_rows_of_denied :
    (host : Host) (event : InboundEvent) (mg : MessagingGroup) (u : Option String) (g : String)
    (text : Json) (agents : List MessagingGroupAgent) (t : Tally) (w : World)
    → host.permissions ≡ true
    → All (λ a. a.agent_group_id ≡ g → Closed mg a) agents
    → has_access w.central u g ≡ false
    → triggered g (fan_out host event mg u text agents t w).1 ≡ triggered g w
fan_out-spares_rows_of_denied host event mg u g text agents t w there closed h =
    (fan_out-Quiet {g = g} {silent = false} host event mg u text agents t w there (
      All-of_In _ agents (λ a m watched. elim watched [
        | inl same ↦ (All-In _ agents a closed m same, rw same h)
        | inr loud ↦ cc
      ]))).same

-- A message of a sender whom the access rules deny for every agent group that is tried never starts
-- an agent: where the permissions module is installed and every wiring is closed (the chat is not
-- public, or the wiring asks for known senders), the fan-out wakes no container, also not for a
-- message that is only kept as context, and leaves the rows that start an agent as they were in the
-- inboxes of every agent group.
pub fan_out-never_wakes_for_denied :
    (host : Host) (event : InboundEvent) (mg : MessagingGroup) (u : Option String) (text : Json)
    (agents : List MessagingGroupAgent) (t : Tally) (w : World)
    → host.permissions ≡ true
    → All (λ a. Closed mg a × (has_access w.central u a.agent_group_id ≡ false)) agents
    → (woken (fan_out host event mg u text agents t w).1 ≡ woken w)
      × ((g : String) → triggered g (fan_out host event mg u text agents t w).1 ≡ triggered g w)
fan_out-never_wakes_for_denied host event mg u text agents t w there shut =
    let quiet : (g : String) → Quiet g true w (fan_out host event mg u text agents t w).1 = λ g.
      fan_out-Quiet {g = g} {silent = true} host event mg u text agents t w there
        (All-of_In _ agents (λ a m watched. All-In _ agents a shut m)) in
    ((quiet "").asleep refl, (λ g. (quiet g).same))
