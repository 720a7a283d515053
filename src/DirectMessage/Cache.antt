-- ===== src/DirectMessage/Cache.antt =====
-- What the cache of direct messages and the table of chats find after a call.
use multi_user_agent_platfor.Base.{
  Bool, false, not, ◌&&◌, ◌||◌, none, some, List, [], ◌∷◌, String, ◌==◌, ◌≡◌, refl, ap, ◌∙◌, arith,
  eq_iff, eq_refl, is_null, find, exists, update_where, find-append, find-eq-some, find-eq-none, In,
  Distinct, Distinct-same, Result, ok, err, Option-cases, Bool-cases, inl, inr,
}
use multi_user_agent_platfor.Types.{Central, User, MessagingGroup}
use multi_user_agent_platfor.Permissions.Roles.{get_user}
use multi_user_agent_platfor.Sessions.Table.{messaging_group_exists}
use multi_user_agent_platfor.Router.Inbound.{
  get_messaging_group, get_messaging_group_by_platform, create_messaging_group,
}
use multi_user_agent_platfor.DirectMessage.Resolve.{
  UserDm, Contacts, Channels, dm_of, get_user_dm, upsert_user_dm, dm_group, find_or_create,
}

abbrev pub same_id : MessagingGroup → MessagingGroup → Bool
same_id a b = a.id == b.id

-- The ids of the chats are distinct, as the primary key has them.
abbrev pub KeyedGroups : Central → Type 0
KeyedGroups db = Distinct same_id db.messaging_groups

find-key :
    (mgs : List MessagingGroup) (mg : MessagingGroup)
    → Distinct same_id mgs
    → In mg mgs
    → find (λ m. m.id == mg.id) mgs ≡ some mg
find-key mgs mg d i = elim (Option-cases (find (λ m. m.id == mg.id) mgs)) [
  | inl gone ↦ let wrong = find-eq-none _ mgs mg gone i in let right = eq_refl mg.id in cc
  | inr (m, e) ↦
      let (t, j) = find-eq-some _ mgs e in
      e
      ∙ ap some (
          Distinct-same same_id (λ x y h. ground (arith, eq_iff x.id y.id, eq_iff y.id x.id)) mgs m
            mg d j i t)
]

-- A row that one of two tests finds is not there where neither does.
find-of_exists :
    (p q : MessagingGroup → Bool) (mgs : List MessagingGroup)
    → exists (λ m. p m || q m) mgs ≡ false
    → find p mgs ≡ none
unfolding exists find
find-of_exists p q [] h = refl
find-of_exists p q (m ∷ ms) h = ground (arith, find-of_exists p q ms)

find-updated :
    (u ct : String) (f : UserDm → UserDm) (dms : List UserDm) (r : UserDm)
    → ((x : UserDm) → dm_of u ct (f x) ≡ dm_of u ct x)
    → find (dm_of u ct) dms ≡ some r
    → find (dm_of u ct) (update_where (dm_of u ct) f dms) ≡ some (f r)
unfolding find update_where
find-updated u ct f [] r k h = cc
find-updated u ct f (x ∷ xs) r k h = elim (Bool-cases (dm_of u ct x)) [
  | inl hit ↦ rw (hit, k x, hit) ground arith
  | inr miss ↦ rw (miss, miss, find) (find-updated u ct f xs r k (rw (miss, find) at h))
]

-- What is upserted is found, with its chat.
pub get_user_dm-upsert_user_dm :
    (row : UserDm) (db : Central) (dms dms' : List UserDm)
    → upsert_user_dm row db dms ≡ ok dms'
    → (r : UserDm) × (get_user_dm row.user_id row.channel_type dms' ≡ some r)
      × (r.messaging_group_id ≡ row.messaging_group_id)
unfolding upsert_user_dm get_user_dm find
get_user_dm-upsert_user_dm row db dms dms' h =
    let rows : Result (List UserDm) → List UserDm = λ r. elim r [ ok x ↦ x | err e ↦ dms' ] in
    elim (Bool-cases (
      is_null (get_user db row.user_id)
      || not (messaging_group_exists db row.messaging_group_id))) [
        | inl refused ↦ let wrong = rw refused at h in cc
        | inr taken ↦ elim (Option-cases (find (dm_of row.user_id row.channel_type) dms)) [
          | inl new ↦
              let e = ap rows (rw (taken, new) at h) in
              (
                row,
                rw (← e) (
                    find-append _ dms (row ∷ []) new
                    ∙ ground (arith, eq_refl row.user_id, eq_refl row.channel_type)),
                refl,
              )
          | inr (r, old) ↦
              let e = ap rows (rw (taken, old) at h) in
              (
                record r {
                  messaging_group_id = row.messaging_group_id;
                  resolved_at = row.resolved_at;
                },
                rw (← e) (find-updated row.user_id row.channel_type _ dms r (λ x. refl) old),
                refl,
              )
        ]
      ]

pub find_or_create-found :
    (channels : Channels) (user : User) (ct pid : String) (c c' : Contacts) (mg : MessagingGroup)
    → KeyedGroups c.central
    → find_or_create channels user ct pid c ≡ (ok mg, c')
    → (get_messaging_group c'.central mg.id ≡ some mg) × (c'.central.users ≡ c.central.users)
unfolding find_or_create get_messaging_group get_messaging_group_by_platform create_messaging_group
    find
find_or_create-found channels user ct pid c c' mg d h =
    let left : Result MessagingGroup × Contacts → Contacts = λ r. r.1 in
    let group : Result MessagingGroup × Contacts → MessagingGroup =
      λ r. elim (r.0) [ ok x ↦ x | err e ↦ mg ] in
    elim (Option-cases (get_messaging_group_by_platform c.central ct pid)) [
      | inr (m, old) ↦
          let (t, i) = find-eq-some _ c.central.messaging_groups old in
          let e = rw (old, find_or_create) at h in
          let same_state = ap left e in
          let same_group = ap group e in
          rw (← same_state, ← same_group) (find-key c.central.messaging_groups m d i, refl)
      | inl new ↦
          let mg' = dm_group channels user ct pid (channels.gen c.draws) in
          elim (Bool-cases (
            exists
              (λ m.
                m.id == mg'.id
                || (m.channel_type == mg'.channel_type && m.platform_id == mg'.platform_id))
              c.central.messaging_groups)) [
                | inl there ↦ let wrong = rw (new, there, find_or_create) at h in cc
                | inr free ↦
                    let e = rw (new, free, find_or_create) at h in
                    let same_state = ap left e in
                    let same_group = ap group e in
                    rw (← same_state, ← same_group)
                      (
                        find-append _ c.central.messaging_groups _ (find-of_exists _ _ _ free)
                            ∙ ground (arith, eq_refl mg'.id),
                        refl,
                      )
              ]
    ]
