-- ===== src/Permissions/Picking.antt =====
-- Who is picked as an approver by src/modules/approvals/primitive.ts.
use multi_user_agent_platfor.Base.{
  ℕ, coalesce, Bool, true, false, ◌&&◌, Option, some, List, [], ◌∷◌, ◌++◌, String, ◌==◌, ◌≡◌, ◌≢◌,
  ◌↔◌, ◌⊎◌, inl, inr, refl, subst, ◌∙◌, arith, eq_iff, is_null, column_is, exists, select, order_by,
  In, In-order_by, exists_of_In, In-of_exists, Bool-cases, Option-cases,
}
use multi_user_agent_platfor.Types.{Central, UserRole, MessagingGroup, owner, admin, role_is}
use multi_user_agent_platfor.Permissions.Roles.{
  is_owner, is_global_admin, is_admin_of_agent_group, has_admin_privilege, get_owners,
  get_global_admins, get_admins_of_agent_group,
}
use multi_user_agent_platfor.Permissions.Approvers.{
  add, add_all, pick_approver, Reachable, first_reachable, pick_approval_delivery,
}

In-snoc : (xs : List String) (x u : String) → In u (xs ++ x ∷ []) ↔ (In u xs ⊎ (u ≡ x))
In-snoc [] x u = ground arith
In-snoc (y ∷ xs) x u = ground (arith, In-snoc xs x u)

In-of-seen : (xs : List String) (u : String) → exists (λ a. a == u) xs ≡ true → In u xs
unfolding exists
In-of-seen [] u h = cc
In-of-seen (x ∷ xs) u h = ground (arith, eq_iff x u, In-of-seen xs u)

In-add : (xs : List String) (x u : String) → In u (add xs x) ↔ (In u xs ⊎ (u ≡ x))
unfolding add
In-add xs x u = elim (Bool-cases (exists (λ a. a == x) xs)) [
  | inl seen ↦ rw seen (inl, λ m. elim m [ inl l ↦ l | inr e ↦ rw e (In-of-seen xs x seen) ])
  | inr new ↦ rw new (In-snoc xs x u)
]

In-add_all :
    (xs : List String) (rs : List UserRole) (u : String)
    → In u (add_all xs rs) ↔ (In u xs ⊎ (exists (λ r. r.user_id == u) rs ≡ true))
unfolding add_all exists
In-add_all xs [] u = ground arith
In-add_all xs (r ∷ rs) u =
    ground (arith, eq_iff r.user_id u, In-add xs r.user_id u, In-add_all (add xs r.user_id) rs u)

exists-order_by :
    (p : UserRole → Bool) (key : UserRole → ℕ) (rs : List UserRole)
    → (exists p (order_by key rs) ≡ true) ↔ (exists p rs ≡ true)
exists-order_by p key rs = (
  (λ h.
      let (a, m, e) = In-of_exists p (order_by key rs) h in
      exists_of_In p rs a ((In-order_by key rs a).0 m) e),
  (λ h.
      let (a, m, e) = In-of_exists p rs h in
      exists_of_In p (order_by key rs) a ((In-order_by key rs a).1 m) e),
)

exists-select :
    (p q : UserRole → Bool) (rs : List UserRole)
    → exists p (select q rs) ≡ exists (λ r. p r && q r) rs
unfolding exists select
exists-select p q [] = refl
exists-select p q (r ∷ rs) = ground (arith, exists-select p q rs)

exists-congr_all :
    (p q : UserRole → Bool) (rs : List UserRole)
    → ((r : UserRole) → p r ≡ q r)
    → exists p rs ≡ exists q rs
unfolding exists
exists-congr_all p q [] h = refl
exists-congr_all p q (r ∷ rs) h = ground (arith, h r, exists-congr_all p q rs h)

owners-listed :
    (db : Central) (u : String)
    → (exists (λ r. r.user_id == u) (get_owners db) ≡ true) ↔ (is_owner db u ≡ true)
unfolding get_owners is_owner
owners-listed db u = ground (
  arith,
  exists-order_by (λ r. r.user_id == u) (λ r. r.granted_at)
      (select (λ r. role_is r.role owner && is_null r.agent_group_id) db.user_roles),
  exists-select (λ r. r.user_id == u) (λ r. role_is r.role owner && is_null r.agent_group_id)
      db.user_roles,
)

global_admins-listed :
    (db : Central) (u : String)
    → (exists (λ r. r.user_id == u) (get_global_admins db) ≡ true) ↔ (is_global_admin db u ≡ true)
unfolding get_global_admins is_global_admin
global_admins-listed db u = ground (
  arith,
  exists-order_by (λ r. r.user_id == u) (λ r. r.granted_at)
      (select (λ r. role_is r.role admin && is_null r.agent_group_id) db.user_roles),
  exists-select (λ r. r.user_id == u) (λ r. role_is r.role admin && is_null r.agent_group_id)
      db.user_roles,
)

group_admins-listed :
    (db : Central) (g u : String)
    → (exists (λ r. r.user_id == u) (get_admins_of_agent_group db g) ≡ true)
      ↔ (is_admin_of_agent_group db u g ≡ true)
unfolding get_admins_of_agent_group is_admin_of_agent_group
group_admins-listed db g u = ground (
  arith,
  exists-order_by (λ r. r.user_id == u) (λ r. r.granted_at)
      (select (λ r. role_is r.role admin && column_is r.agent_group_id g) db.user_roles),
  exists-select (λ r. r.user_id == u) (λ r. role_is r.role admin && column_is r.agent_group_id g)
      db.user_roles,
)

-- For a request on an agent group, the approvers that are picked are exactly the users with an admin
-- privilege over the group: its admins, the global admins and the owners. The group's id is not
-- the empty text.
pub pick_approver-eq-privileged :
    (db : Central) (g u : String)
    → g ≢ ""
    → In u (pick_approver db (some g)) ↔ (has_admin_privilege db u g ≡ true)
unfolding pick_approver has_admin_privilege
pick_approver-eq-privileged db g u n =
    let e : (g == "") ≡ false = ground (arith, eq_iff g "") in
    let scoped = add_all [] (get_admins_of_agent_group db g) in
    let wide = add_all scoped (get_global_admins db) in
    rw e (
      ground (
        arith,
        owners-listed db u,
        global_admins-listed db u,
        group_admins-listed db g u,
        In-add_all [] (get_admins_of_agent_group db g) u,
        In-add_all scoped (get_global_admins db) u,
        In-add_all wide (get_owners db) u,
      ))

abbrev reach : String → MessagingGroup → Reachable
reach u mg = record { user_id = u; messaging_group = mg }

reached :
    (dm : String → Option MessagingGroup) (u : String) (us : List String) (mg : MessagingGroup)
    (r : Reachable)
    → dm u ≡ some mg
    → some (reach u mg) ≡ some r
    → In r.user_id (u ∷ us) × (dm r.user_id ≡ some r.messaging_group)
reached dm u us mg r found e =
    let same : reach u mg ≡ r = cc in
    subst (λ q. In q.user_id (u ∷ us) × (dm q.user_id ≡ some q.messaging_group)) same
      (inl refl, found)

-- The approver whom a card goes to is one of those who were picked, and the direct message is theirs.
pub first_reachable-picked :
    (dm : String → Option MessagingGroup) (ct : String → Option String) (p : String → Bool)
    (us : List String) (r : Reachable)
    → first_reachable dm ct p us ≡ some r
    → In r.user_id us × (dm r.user_id ≡ some r.messaging_group)
unfolding first_reachable
first_reachable-picked dm ct p [] r h = cc
first_reachable-picked dm ct p (u ∷ us) r h = elim (Bool-cases (p u)) [
  | inr skipped ↦
      let s = first_reachable-picked dm ct p us r (rw (skipped, first_reachable) at h) in
      (inr s.0, s.1)
  | inl eligible ↦ elim (Option-cases (dm u)) [
    | inl none_found ↦
        let s =
          first_reachable-picked dm ct p us r (rw (eligible, none_found, first_reachable) at h) in
        (inr s.0, s.1)
    | inr (mg, found) ↦ reached dm u us mg r found (rw (eligible, found, first_reachable) at h)
  ]
]

pub pick_approval_delivery-picked :
    (dm : String → Option MessagingGroup) (ct : String → Option String) (us : List String)
    (origin : String) (r : Reachable)
    → pick_approval_delivery dm ct us origin ≡ some r
    → In r.user_id us × (dm r.user_id ≡ some r.messaging_group)
unfolding pick_approval_delivery
pick_approval_delivery-picked dm ct us origin r h = elim (Bool-cases (origin == "")) [
  | inl blank ↦ first_reachable-picked dm ct (λ _. true) us r (rw blank at h)
  | inr given ↦ elim (Option-cases (first_reachable dm ct (λ u. coalesce (ct u) "" == origin) us)) [
    | inl far ↦ first_reachable-picked dm ct (λ _. true) us r (rw (given, far) at h)
    | inr (q, near) ↦
        first_reachable-picked dm ct (λ u. coalesce (ct u) "" == origin) us r
          (near ∙ (rw (given, near) at h))
  ]
]
