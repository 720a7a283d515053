-- ===== src/DirectMessage/Repeat.antt =====
-- That a user who was reached is reached again in the same chat.
use multi_user_agent_platfor.Base.{
  Option, none, some, List, String, ◌==◌, ◌≡◌, refl, ap, subst, ◌∙◌, Result, ok, err, Option-cases,
  Bool-cases, inl, inr,
}
use multi_user_agent_platfor.Types.{Central, User, MessagingGroup}
use multi_user_agent_platfor.Permissions.Roles.{get_user}
use multi_user_agent_platfor.Router.Inbound.{get_messaging_group}
use multi_user_agent_platfor.DirectMessage.Resolve.{
  UserDm, Contacts, Channels, Outcome, get_user_dm, upsert_user_dm, find_or_create, cached,
  remember, find_chat, group_of, on_channel, ensure_user_dm, parse_user_id, resolve_dm_platform_id,
}
use multi_user_agent_platfor.DirectMessage.Cache.{
  KeyedGroups, get_user_dm-upsert_user_dm, find_or_create-found,
}

module _ (channels : Channels) where
  -- A cached chat is answered, and nothing changes.
  ensure_user_dm-cached :
      (user_id ct handle : String) (c : Contacts) (user : User) (r : UserDm) (mg : MessagingGroup)
      → get_user c.central user_id ≡ some user
      → parse_user_id channels user ≡ some (ct, handle)
      → get_user_dm user.id ct c.user_dms ≡ some r
      → get_messaging_group c.central r.messaging_group_id ≡ some mg
      → ensure_user_dm channels user_id c ≡ (ok (some mg), c)
  unfolding ensure_user_dm
  ensure_user_dm-cached user_id ct handle c user r mg a b d e = rw (a, b, on_channel, d, e) refl

  -- The state has the chat of an outcome in its cache.
  abbrev Remembered : User → String → MessagingGroup → Outcome MessagingGroup → Contacts → Type 0
  Remembered user ct mg o c' =
      (mid : Contacts) × (o ≡ (ok mg, mid))
      × (c'.central ≡ mid.central)
      × (r : UserDm) × (get_user_dm user.id ct c'.user_dms ≡ some r)
      × (r.messaging_group_id ≡ mg.id)

  remember-found :
      (user : User) (ct : String) (o : Outcome MessagingGroup) (c' : Contacts) (mg : MessagingGroup)
      → remember channels user ct o ≡ (ok (some mg), c')
      → Remembered user ct mg o c'
  unfolding remember
  remember-found user ct (err e, mid) c' mg h = cc
  remember-found user ct (ok m, mid) c' mg h =
      go
        (upsert_user_dm
          (record {
            user_id = user.id;
            channel_type = ct;
            messaging_group_id = m.id;
            resolved_at = channels.now;
          })
          mid.central mid.user_dms)
        refl h
    where
      row : UserDm
      row = record {
        user_id = user.id;
        channel_type = ct;
        messaging_group_id = m.id;
        resolved_at = channels.now;
      }

      go :
          (q : Result (List UserDm))
          → upsert_user_dm row mid.central mid.user_dms ≡ q
          → cached channels m mid q ≡ (ok (some mg), c')
          → Remembered user ct mg (ok m, mid) c'
      go (err e) a b = cc
      go (ok dms) a b =
          let same_state = ap (λ (p : Outcome (Option MessagingGroup)). p.1) b in
          let same_group : m ≡ mg = cc in
          let (r, f, i) = get_user_dm-upsert_user_dm row mid.central mid.user_dms dms a in
          rw (← same_state, ← same_group) (mid, refl, refl, r, f, i)

get_user-users :
    (user_id : String) (db db' : Central)
    → db.users ≡ db'.users
    → get_user db user_id ≡ get_user db' user_id
unfolding get_user
get_user-users user_id db db' e = rw e refl

-- Two calls: the clock, the ids and what the adapters answer may differ from one to the next.
module _ (channels channels' : Channels)
    (same_registered : channels'.registered ≡ channels.registered)
    (same_split : channels'.split_at_colon ≡ channels.split_at_colon) where
  parse_user_id-same : (user : User) → parse_user_id channels' user ≡ parse_user_id channels user
  unfolding parse_user_id
  parse_user_id-same user = rw (same_registered, same_split) refl

  find_chat-repeat :
      (user_id ct handle : String) (user : User) (c c' : Contacts) (mg : MessagingGroup)
      (platform_id : Option String)
      → KeyedGroups c.central
      → get_user c.central user_id ≡ some user
      → parse_user_id channels user ≡ some (ct, handle)
      → find_chat channels user ct platform_id c ≡ (ok (some mg), c')
      → ensure_user_dm channels' user_id c' ≡ (ok (some mg), c')
  find_chat-repeat user_id ct handle user c c' mg none d a b h = cc
  find_chat-repeat user_id ct handle user c c' mg (some pid) d a b h =
      elim (Bool-cases (pid == "")) [
        | inl blank ↦ let wrong = rw blank at h in cc
        | inr given ↦
            let (mid, o, same_db, r, f, i) =
              remember-found channels user ct (find_or_create channels user ct pid c) c' mg
                (rw given at h) in
            let (g, same_users) = find_or_create-found channels user ct pid c mid mg d o in
            ensure_user_dm-cached channels' user_id ct handle c' user r mg
              (get_user-users user_id c'.central c.central
                  (ap (λ db. db.users) same_db ∙ same_users)
                ∙ a)
              (parse_user_id-same user ∙ b) f (rw (same_db, i) g)
      ]

  -- Where the ids of the chats are distinct, a user who was reached in a chat is reached there again,
  -- and asking again changes nothing, whatever the clock shows then and whatever the adapters would
  -- answer, as long as the same adapters are registered.
  pub ensure_user_dm-repeat :
      (user_id : String) (c c' : Contacts) (mg : MessagingGroup)
      → KeyedGroups c.central
      → ensure_user_dm channels user_id c ≡ (ok (some mg), c')
      → ensure_user_dm channels' user_id c' ≡ (ok (some mg), c')
  unfolding ensure_user_dm
  ensure_user_dm-repeat user_id c c' mg d h = elim (Option-cases (get_user c.central user_id)) [
    | inl unknown ↦ let wrong = rw (unknown, ensure_user_dm) at h in cc
    | inr (user, a) ↦ elim (Option-cases (parse_user_id channels user)) [
      | inl plain ↦ let wrong = rw (a, plain, ensure_user_dm) at h in cc
      | inr ((ct, handle), b) ↦
          elim (Option-cases (group_of channels c.central (get_user_dm user.id ct c.user_dms))) [
            | inr (m, hit) ↦
                let found : ensure_user_dm channels' user_id c ≡ (ok (some m), c) =
                  rw (a, parse_user_id-same user ∙ b, on_channel, hit) refl in
                let same = rw (a, b, on_channel, hit, ensure_user_dm) at h in
                subst (λ x. ensure_user_dm channels' user_id x ≡ (ok (some mg), c'))
                  (ap (λ (p : Outcome (Option MessagingGroup)). p.1) same) (found ∙ same)
            | inl miss ↦
                find_chat-repeat user_id ct handle user c c' mg
                  (resolve_dm_platform_id channels ct handle) d a b
                  (rw (a, b, on_channel, miss, ensure_user_dm) at h)
          ]
    ]
  ]
