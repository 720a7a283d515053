-- ===== src/Permissions/AdminCommands.antt =====
-- The command gate against the role lookups: who gets an admin command through.
use multi_user_agent_platfor.Base.{
  true, false, not, is_null, ◌&&◌, ◌||◌, none, some, List, [], ◌∷◌, String, ◌≡◌, refl, ◌≢◌, arith,
  eq_iff, exists, All, In, if◌then◌else◌, inl, inr,
}
use multi_user_agent_platfor.Engine.{TextEngine}
use multi_user_agent_platfor.Types.{Central, UserRole, owner, admin, role_is}
use multi_user_agent_platfor.Permissions.Roles.{
  role_at, is_owner, is_global_admin, is_admin_of_agent_group, has_admin_privilege,
}
use multi_user_agent_platfor.Permissions.Privilege.{OwnersGlobal}
use multi_user_agent_platfor.Permissions.CommandGate.{
  pass, deny, one_of, admin_commands, filtered_commands, admin_row, is_admin, gate_text,
  gate_command,
}

admin_row-split :
    (u g : String) (r : UserRole)
    → (role_is r.role owner && not (is_null r.agent_group_id)) ≡ false
    → admin_row u g r
      ≡ (role_at u owner none r || role_at u admin none r || role_at u admin (some g) r)
admin_row-split u g r h = ground arith

exists-admin_row :
    (u g : String) (rows : List UserRole)
    → All (λ r. (role_is r.role owner && not (is_null r.agent_group_id)) ≡ false) rows
    → exists (admin_row u g) rows ≡ (
        exists (role_at u owner none) rows
        || exists (role_at u admin none) rows
        || exists (role_at u admin (some g)) rows)
unfolding exists
exists-admin_row u g [] h = refl
exists-admin_row u g (r ∷ rows) (h, hs) =
    ground (arith, admin_row-split u g r h, exists-admin_row u g rows hs)

-- With owner rows global, the gate's own query answers what `hasAdminPrivilege` answers, for a
-- sender whose id is not the empty text.
pub is_admin-eq-has_admin_privilege :
    (db : Central) (u g : String)
    → OwnersGlobal db
    → u ≢ ""
    → is_admin true db (some u) g ≡ has_admin_privilege db u g
unfolding is_admin has_admin_privilege is_owner is_global_admin is_admin_of_agent_group
is_admin-eq-has_admin_privilege db u g v n =
    ground (arith, eq_iff u "", exists-admin_row u g db.user_roles v)

In-of_one_of : (ts : List String) (s : String) → one_of ts s ≡ true → In s ts
unfolding one_of
In-of_one_of [] s h = cc
In-of_one_of (t ∷ ts) s h = ground (arith, eq_iff t s, In-of_one_of ts s)

-- No command is in both sets.
admin-not_filtered :
    (c : String) → one_of admin_commands c ≡ true → one_of filtered_commands c ≡ false
unfolding admin_commands filtered_commands one_of
admin-not_filtered c h = go (In-of_one_of admin_commands c h)
  where
    go : In c admin_commands → one_of filtered_commands c ≡ false
    go (inl e) = rw e refl
    go (inr (inl e)) = rw e refl
    go (inr (inr (inl e))) = rw e refl
    go (inr (inr (inr (inl e)))) = rw e refl
    go (inr (inr (inr (inr (inl e))))) = rw e refl
    go (inr (inr (inr (inr (inr m))))) = absurd m

module _ (engine : TextEngine) (db : Central) (content g : String) where
  -- Where the permissions module is installed and owner rows are global, and for a sender whose id
  -- is not the empty text, an admin command passes the gate exactly where the sender has an admin
  -- privilege over the agent group; else the answer is the denial that names the command.
  pub gate_command-admin_command :
      (u : String)
      → OwnersGlobal db
      → u ≢ ""
      → engine.starts_with_slash (gate_text engine content) ≡ true
      → one_of admin_commands (engine.command_word (gate_text engine content)) ≡ true
      → gate_command engine true db content (some u) g ≡ (
          if has_admin_privilege db u g
          then pass
          else deny (engine.command_word (gate_text engine content)))
  unfolding gate_command
  gate_command-admin_command u v n slash listed = ground (
    arith,
    admin-not_filtered (engine.command_word (gate_text engine content)) listed,
    is_admin-eq-has_admin_privilege db u g v n,
  )

  -- With the permissions module, a sender without an id never gets an admin command through.
  gate_command-anonymous :
      engine.starts_with_slash (gate_text engine content) ≡ true
      → one_of admin_commands (engine.command_word (gate_text engine content)) ≡ true
      → gate_command engine true db content none g
        ≡ deny (engine.command_word (gate_text engine content))
  unfolding gate_command is_admin
  gate_command-anonymous slash listed =
      ground (arith, admin-not_filtered (engine.command_word (gate_text engine content)) listed)
