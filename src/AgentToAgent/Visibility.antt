-- ===== src/AgentToAgent/Visibility.antt =====
-- Which chats the container of a session sees.
use multi_user_agent_platfor.Base.{
  true, false, some, List, [], ◌∷◌, ◌++◌, append-nil, append_assoc, String, ◌==◌, ◌≡◌, refl, sym,
  ap, ◌∙◌, eq_iff, eq_refl, exists, All, ok, err, Option-cases, Bool-cases, inl, inr,
}
use multi_user_agent_platfor.Types.{
  Central, MessagingGroup, Session, AgentDestination, channel, target_is,
}
use multi_user_agent_platfor.Sessions.Table.{get_session}
use multi_user_agent_platfor.Router.Inbound.{get_messaging_group}
use multi_user_agent_platfor.Router.Fanout.{get_agent_group}
use multi_user_agent_platfor.AgentToAgent.Destinations.{get_destinations}
use multi_user_agent_platfor.AgentToAgent.Projection.{
  DestinationRow, insert_entries, replace_destinations, for_channel, resolved_row, push, resolved,
  is_chat, with_origin, destination_entries, write_destinations,
}

-- What is inserted comes after what is there, in the order of the entries.
insert_entries-appends :
    (entries rows out : List DestinationRow)
    → insert_entries entries rows ≡ ok out
    → out ≡ rows ++ entries
unfolding insert_entries
insert_entries-appends [] rows out h =
    ap (λ r. elim r [ ok x ↦ x | err e ↦ out ]) (sym h) ∙ sym (append-nil rows)
insert_entries-appends (e ∷ entries) rows out h =
    elim (Bool-cases (exists (λ r. r.name == e.name) rows)) [
      | inl taken ↦ let wrong = rw taken at h in cc
      | inr free ↦
          insert_entries-appends entries (rows ++ e ∷ []) out (rw free at h)
          ∙ append_assoc rows (e ∷ []) entries
    ]

-- An entry for a chat is one for the chat `mg`.
abbrev pub OnlyChat : MessagingGroup → DestinationRow → Type 0
OnlyChat mg r =
    target_is r.target_type channel ≡ true
    → (r.channel_type ≡ some mg.channel_type) × (r.platform_id ≡ some mg.platform_id)

module _ (db : Central) (id : String) (mg : MessagingGroup) (given : (id == "") ≡ false)
    (found : get_messaging_group db id ≡ some mg) where
  for_channel-OnlyChat :
      (row : AgentDestination) (rows : List DestinationRow)
      → All (OnlyChat mg) rows
      → All (OnlyChat mg) (
          push db
            (some id)
            (for_channel db (some id) row (get_messaging_group db row.target_id))
            rows)
  for_channel-OnlyChat row rows h = elim (Bool-cases (row.target_id == id)) [
    | inl own ↦
        rw ((eq_iff row.target_id id).0 own, found, given, eq_refl id) ((λ chat. (refl, refl)), h)
    | inr other ↦ elim (Option-cases (get_messaging_group db row.target_id)) [
      | inl gone ↦ rw gone h
      | inr (m, there) ↦ rw (there, given, other) h
    ]
  ]

  resolved-OnlyChat :
      (rows : List AgentDestination) → All (OnlyChat mg) (resolved db (some id) rows)
  unfolding resolved resolved_row
  resolved-OnlyChat [] = tt
  resolved-OnlyChat (row ∷ rows) = elim (Bool-cases (target_is row.target_type channel)) [
    | inl chat ↦
        rw chat (for_channel-OnlyChat row (resolved db (some id) rows) (resolved-OnlyChat rows))
    | inr other ↦ elim (Option-cases (get_agent_group db row.target_id)) [
      | inl gone ↦ rw (other, gone) (resolved-OnlyChat rows)
      | inr (ag, there) ↦ rw (other, there) ((λ chat. cc), resolved-OnlyChat rows)
    ]
  ]

  with_origin-OnlyChat :
      (rows : List DestinationRow)
      → All (OnlyChat mg) rows
      → All (OnlyChat mg) (with_origin db (some id) rows)
        × (exists is_chat (with_origin db (some id) rows) ≡ true)
  unfolding with_origin exists
  with_origin-OnlyChat rows h = elim (Bool-cases (exists is_chat rows)) [
    | inl seen ↦ rw (seen, given) (h, seen)
    | inr unseen ↦ rw (unseen, given, found) (((λ chat. (refl, refl)), h), refl)
  ]

  -- Where the files of a session bound to an existing chat are there and its destinations are
  -- accepted, the container sees this chat, and no other.
  pub write_destinations-OnlyChat :
      (agent_group_id session_id : String) (session : Session) (old out : List DestinationRow)
      → get_session db session_id ≡ some session
      → session.messaging_group_id ≡ some id
      → write_destinations true db agent_group_id session_id old ≡ ok out
      → All (OnlyChat mg) out × (exists is_chat out ≡ true)
  unfolding write_destinations replace_destinations destination_entries
  write_destinations-OnlyChat agent_group_id session_id session old out a b h =
      let entries =
        with_origin db (some id) (resolved db (some id) (get_destinations db agent_group_id)) in
      let e = insert_entries-appends entries [] out (rw (a, b) at h) in
      rw e (
        with_origin-OnlyChat (resolved db (some id) (get_destinations db agent_group_id))
          (resolved-OnlyChat (get_destinations db agent_group_id)))
