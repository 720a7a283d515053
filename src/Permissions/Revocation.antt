-- ===== src/Permissions/Revocation.antt =====
-- Taking a user's access to an agent group away: every role row and the membership row.
use multi_user_agent_platfor.Base.{
  Bool, true, false, Option, none, some, String, ◌≡◌, refl, ◌∙◌, ◌≢◌, arith, eq_iff, exists,
  exists-delete_where, exists-delete_where_other, exists-delete_where_of_false,
}
use multi_user_agent_platfor.Types.{Central, UserRoleKind, owner, admin, AgentGroupMember}
use multi_user_agent_platfor.Permissions.Roles.{
  get_user, is_owner, is_global_admin, is_admin_of_agent_group, revoke_role, role_at,
}
use multi_user_agent_platfor.Permissions.Members.{
  is_member, has_membership_row, remove_member, member_at,
}
use multi_user_agent_platfor.Permissions.Access.{is_allowed, can_access_agent_group}
use multi_user_agent_platfor.Permissions.Privilege.{role_at-other}

-- The four calls that leave a user with no claim on a group.
abbrev pub cut_off : String → String → Central → Central
cut_off u g db =
    remove_member u g
      (revoke_role u admin (some g) (revoke_role u admin none (revoke_role u owner none db)))

abbrev pub has_role : Central → String → UserRoleKind → Option String → Bool
has_role db u role g = exists (role_at u role g) db.user_roles

has_role-revoke_self :
    (db : Central) (u : String) (role : UserRoleKind) (g : Option String)
    → has_role (revoke_role u role g db) u role g ≡ false
unfolding revoke_role
has_role-revoke_self db u role g =
    exists-delete_where (role_at u role g) (role_at u role g) db.user_roles (λ r e. e)

has_role-revoke_of_false :
    (db : Central) (u v : String) (role role' : UserRoleKind) (g h : Option String)
    → has_role db v role' h ≡ false
    → has_role (revoke_role u role g db) v role' h ≡ false
unfolding revoke_role
has_role-revoke_of_false db u v role role' g h e =
    exists-delete_where_of_false (role_at u role g) (role_at v role' h) db.user_roles e

has_role-revoke_other :
    (db : Central) (u v : String) (role role' : UserRoleKind) (g h : Option String)
    → v ≢ u
    → has_role (revoke_role u role g db) v role' h ≡ has_role db v role' h
unfolding revoke_role
has_role-revoke_other db u v role role' g h n =
    exists-delete_where_other (role_at u role g) (role_at v role' h) db.user_roles
      (λ r e. role_at-other u v role role' g h r n e)

has_role-remove_member :
    (db : Central) (u v g : String) (role : UserRoleKind) (h : Option String)
    → has_role (remove_member u g db) v role h ≡ has_role db v role h
unfolding remove_member
has_role-remove_member db u v g role h = refl

has_role-cut_off_other :
    (db : Central) (u v g : String) (role : UserRoleKind) (h : Option String)
    → v ≢ u
    → has_role (cut_off u g db) v role h ≡ has_role db v role h
unfolding remove_member
has_role-cut_off_other db u v g role h n =
    has_role-revoke_other (revoke_role u admin none (revoke_role u owner none db)) u v admin role
      (some g) h n
    ∙ has_role-revoke_other (revoke_role u owner none db) u v admin role none h n
    ∙ has_role-revoke_other db u v owner role none h n

has_membership_row-cut_off :
    (db : Central) (u g : String) → has_membership_row (cut_off u g db) u g ≡ false
unfolding has_membership_row remove_member
has_membership_row-cut_off db u g = exists-delete_where (member_at u g) (member_at u g) _ (λ m e. e)

member_at-other :
    (u v g h : String) (m : AgentGroupMember)
    → v ≢ u
    → member_at v h m ≡ true
    → member_at u g m ≡ false
member_at-other u v g h m n e = ground (arith, eq_iff m.user_id u, eq_iff m.user_id v)

has_membership_row-cut_off_other :
    (db : Central) (u v g h : String)
    → v ≢ u
    → has_membership_row (cut_off u g db) v h ≡ has_membership_row db v h
unfolding has_membership_row remove_member revoke_role
has_membership_row-cut_off_other db u v g h n =
    exists-delete_where_other (member_at u g) (member_at v h) db.agent_group_members
      (λ m e. member_at-other u v g h m n e)

-- The access decision depends on the user row, the roles and the membership row alone.
can_access-congr :
    (db db' : Central) (u g : String)
    → get_user db' u ≡ get_user db u
    → is_owner db' u ≡ is_owner db u
    → is_global_admin db' u ≡ is_global_admin db u
    → is_admin_of_agent_group db' u g ≡ is_admin_of_agent_group db u g
    → has_membership_row db' u g ≡ has_membership_row db u g
    → can_access_agent_group db' u g ≡ can_access_agent_group db u g
unfolding can_access_agent_group is_member
can_access-congr db db' u g a b c d e = rw (a, b, c, d, e) refl

get_user-cut_off : (db : Central) (u v g : String) → get_user (cut_off u g db) v ≡ get_user db v
unfolding get_user revoke_role remove_member
get_user-cut_off db u v g = refl

cut_off-is_owner : (db : Central) (u g : String) → is_owner (cut_off u g db) u ≡ false
unfolding is_owner remove_member
cut_off-is_owner db u g =
    has_role-revoke_of_false _ u u admin owner (some g) none
      (has_role-revoke_of_false _ u u admin owner none none (has_role-revoke_self db u owner none))

cut_off-is_global_admin : (db : Central) (u g : String) → is_global_admin (cut_off u g db) u ≡ false
unfolding is_global_admin remove_member
cut_off-is_global_admin db u g =
    has_role-revoke_of_false _ u u admin admin (some g) none (has_role-revoke_self _ u admin none)

cut_off-is_admin_of_agent_group :
    (db : Central) (u g : String) → is_admin_of_agent_group (cut_off u g db) u g ≡ false
unfolding is_admin_of_agent_group remove_member
cut_off-is_admin_of_agent_group db u g = has_role-revoke_self _ u admin (some g)

cut_off-refused :
    (db : Central) (u g : String) → is_allowed (can_access_agent_group (cut_off u g db) u g) ≡ false
unfolding can_access_agent_group is_member
cut_off-refused db u g = ground (
  arith,
  cut_off-is_owner db u g,
  cut_off-is_global_admin db u g,
  cut_off-is_admin_of_agent_group db u g,
  has_membership_row-cut_off db u g,
)

cut_off-others :
    (db : Central) (u g v h : String)
    → v ≢ u
    → can_access_agent_group (cut_off u g db) v h ≡ can_access_agent_group db v h
unfolding is_owner is_global_admin is_admin_of_agent_group
cut_off-others db u g v h n =
    can_access-congr db (cut_off u g db) v h (get_user-cut_off db u v g)
      (has_role-cut_off_other db u v g owner none n) (has_role-cut_off_other db u v g admin none n)
      (has_role-cut_off_other db u v g admin (some h) n)
      (has_membership_row-cut_off_other db u v g h n)

-- Whatever the tables hold, revoking the owner role, the global and the scoped admin role of a
-- user and removing the membership row denies that user the group, and the answer for every other
-- user and any group stays what it was.
pub cut_off-denies :
    (db : Central) (u g v h : String)
    → v ≢ u
    → (is_allowed (can_access_agent_group (cut_off u g db) u g) ≡ false)
      × (can_access_agent_group (cut_off u g db) v h ≡ can_access_agent_group db v h)
cut_off-denies db u g v h n = (cut_off-refused db u g, cut_off-others db u g v h n)
