-- ===== src/Wiring/FreeName.antt =====
-- The loop that looks for a free name: in `createMessagingGroupAgent` of src/db/messaging-groups.ts and
-- in `createNewAgentGroup` of src/modules/permissions/channel-approval.ts.
use Prim.Native.String
use multi_user_agent_platfor.Base.{
  ℕ, zero, suc, ◌+◌, Bool, Option, none, some, String, ◌==◌, if◌then◌else◌,
}
use multi_user_agent_platfor.Engine.{TextEngine}

module _ (engine : TextEngine) where
  -- `normalizeName`, and `toFolder`
  unfoldable pub normalize_name : String → String
  normalize_name name =
      let text =
        engine.replace_all "^-+|-+$" ""
          (engine.replace_all "[^a-z0-9]+" "-" (engine.lower_case name)) in
      if text == "" then "unnamed" else text

  -- `${base}-${suffix}`
  abbrev pub numbered : String → ℕ → String
  numbered base suffix = String.◌++◌ base (String.◌++◌ "-" (engine.digits suffix))

  -- The name while it is taken becomes the next numbered one; `none` where the fuel is used up.
  unfoldable pub free_name_from : (String → Bool) → String → ℕ → String → ℕ → Option String
  free_name_from taken base zero name suffix = if taken name then none else some name
  free_name_from taken base (suc fuel) name suffix =
      let rest = free_name_from taken base fuel (numbered base suffix) (suffix + 1) in
      if taken name then rest else some name

  unfoldable pub free_name : (String → Bool) → ℕ → String → Option String
  free_name taken fuel base = free_name_from taken base fuel base 2
