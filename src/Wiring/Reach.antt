-- ===== src/Wiring/Reach.antt =====
-- That a wired agent may write to its chat.
use multi_user_agent_platfor.Base.{
  ℕ, true, some, ◌≡◌, refl, ◌∙◌, arith, eq_iff, eq_refl, exists, exists-append, In-of_exists,
  exists_of_In, find-eq-some, find-eq-none, Option-cases, inl, inr, Result, ok,
}
use multi_user_agent_platfor.Engine.{TextEngine}
use multi_user_agent_platfor.Types.{Central, Session, MessagingGroup, MessagingGroupAgent, channel}
use multi_user_agent_platfor.World.{World}
use multi_user_agent_platfor.Permissions.Roles.{agent_group_exists}
use multi_user_agent_platfor.Sessions.Table.{messaging_group_exists}
use multi_user_agent_platfor.AgentToAgent.Destinations.{
  to_target, named, create_destination, get_destination_by_target, has_destination,
}
use multi_user_agent_platfor.Delivery.Send.{Outlet, may_send}
use multi_user_agent_platfor.Router.Inbound.{get_messaging_group}
use multi_user_agent_platfor.Wiring.Chats.{insert_wiring}
use multi_user_agent_platfor.Wiring.Wire.{
  base_name, add_destination, ensure_destination, create_messaging_group_agent,
}
use multi_user_agent_platfor.Wiring.Pigeonhole.{free_name-ends}

-- Whether a call ends and leaves the agent with the chat as a destination.
abbrev pub Destined : MessagingGroupAgent → Result (Unit {0}) × World → Type 0
Destined mga (r, w) =
    (r ≡ ok tt)
    × (has_destination w.central mga.agent_group_id channel mga.messaging_group_id ≡ true)

module _ (engine : TextEngine) (injective : (m n : ℕ) → engine.digits m ≡ engine.digits n → m ≡ n)
    (mga : MessagingGroupAgent) where
  add_destination-Destined :
      (mg : MessagingGroup) (w : World)
      → agent_group_exists w.central mga.agent_group_id ≡ true
      → Destined mga (add_destination engine (some mg) mga w)
  unfolding add_destination create_destination has_destination exists agent_group_exists
  add_destination-Destined mg w h =
      let (name, e, free) =
        free_name-ends engine injective (named mga.agent_group_id)
          (λ r a b i j. ground (arith, eq_iff r.local_name a, eq_iff r.local_name b))
          (base_name engine mg mga) w.central.agent_destinations in
      rw (e, free, h)
        (
          refl,
          exists-append (to_target mga.agent_group_id channel mga.messaging_group_id)
                w.central.agent_destinations _
              ∙ ground (arith, eq_refl mga.agent_group_id, eq_refl mga.messaging_group_id),
        )

  ensure_destination-Destined :
      (w : World)
      → agent_group_exists w.central mga.agent_group_id ≡ true
      → messaging_group_exists w.central mga.messaging_group_id ≡ true
      → Destined mga (ensure_destination engine mga w)
  unfolding ensure_destination get_destination_by_target get_messaging_group has_destination
      messaging_group_exists
  ensure_destination-Destined w h k =
      elim (Option-cases
        (get_destination_by_target w.central mga.agent_group_id channel mga.messaging_group_id)) [
          | inr (d, e) ↦
              let (t, m) = find-eq-some _ w.central.agent_destinations e in
              rw e (refl, exists_of_In _ w.central.agent_destinations d m t)
          | inl none_yet ↦
              rw none_yet
                (elim (Option-cases (get_messaging_group w.central mga.messaging_group_id)) [
                  | inr (mg, e) ↦ rw e (add_destination-Destined mg w h)
                  | inl gone ↦
                      let (mg, m, t) = In-of_exists _ w.central.messaging_groups k in
                      let f = find-eq-none _ w.central.messaging_groups mg gone m in cc
                ])
        ]

  insert_wiring-references :
      (db db' : Central)
      → insert_wiring mga db ≡ ok db'
      → (agent_group_exists db' mga.agent_group_id ≡ true)
        × (messaging_group_exists db' mga.messaging_group_id ≡ true)
  unfolding insert_wiring agent_group_exists messaging_group_exists
  insert_wiring-references db db' e = (ground arith, ground arith)

  -- Where the row of a wiring is accepted and different numbers have different texts, the call ends
  -- without an error, and the agent may write to the chat from any of its sessions.
  pub create_messaging_group_agent-may_send :
      (w : World) (db : Central) (outlet : Outlet) (s : Session) (mg : MessagingGroup)
      → insert_wiring mga w.central ≡ ok db
      → s.agent_group_id ≡ mga.agent_group_id
      → mg.id ≡ mga.messaging_group_id
      → ((create_messaging_group_agent engine mga w).0 ≡ ok tt)
        × (may_send outlet (create_messaging_group_agent engine mga w).1.central s mg ≡ true)
  unfolding create_messaging_group_agent may_send
  create_messaging_group_agent-may_send w db outlet s mg e a b =
      let (g, m) = insert_wiring-references w.central db e in
      let (done, there) = ensure_destination-Destined (record w { central = db }) g m in
      rw (e, a, b) (done, ground arith)
