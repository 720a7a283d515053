-- ===== src/Permissions/CommandGate.antt =====
-- src/command-gate.ts: slash commands that are dropped, or wanted only from admins.
-- `hasTable` is a flag: without the permissions module there is no table.
use multi_user_agent_platfor.Base.{
  Bool, true, false, not, ◌&&◌, ◌||◌, Option, none, some, List, [], ◌∷◌, String, ◌==◌,
  if◌then◌else◌, truthy, is_null, column_is, exists, Result, ok, err, Json, property, str,
  type_error,
}
use multi_user_agent_platfor.Base
use multi_user_agent_platfor.Engine.{TextEngine}
use multi_user_agent_platfor.Types.{Central, UserRole, owner, admin, role_is}

pub data GateResult : Type 0 where
  pass filter : GateResult
  deny : String → GateResult

unfoldable pub one_of : List String → String → Bool
one_of [] s = false
one_of (t ∷ ts) s = t == s || one_of ts s

unfoldable pub filtered_commands : List String
filtered_commands = "/help" ∷ "/login" ∷ "/logout" ∷ "/doctor" ∷ "/config" ∷ "/remote-control" ∷ []

unfoldable pub admin_commands : List String
admin_commands = "/clear" ∷ "/compact" ∷ "/context" ∷ "/cost" ∷ "/files" ∷ []

-- The WHERE clause of `isAdmin`.
abbrev pub admin_row : String → String → UserRole → Bool
admin_row user_id agent_group_id r =
    r.user_id == user_id
    && (role_is r.role owner || role_is r.role admin)
    && (is_null r.agent_group_id || column_is r.agent_group_id agent_group_id)

unfoldable pub is_admin : Bool → Central → Option String → String → Bool
is_admin has_user_roles db none agent_group_id = false
is_admin has_user_roles db (some user_id) agent_group_id =
    if user_id == ""
    then false
    else if not has_user_roles
    then true
    else exists (admin_row user_id agent_group_id) db.user_roles

module _ (engine : TextEngine) where
  -- `(parsed.text || '').trim()`: any falsy value gives the empty text; what is truthy and no text
  -- has no `trim`, and the catch reads the raw content.
  gate_field : String → Option Json → String
  gate_field content none = engine.trim ""
  gate_field content (some (str s)) = engine.trim s
  gate_field content (some Base.null) = engine.trim ""
  gate_field content (some (Base.bool false)) = engine.trim ""
  gate_field content (some (Base.num n)) = if n == "0" then engine.trim "" else engine.trim content
  gate_field content (some _) = engine.trim content

  gate_parsed : String → Result (Option Json) → String
  unfolding gate_field
  gate_parsed content (ok field) = gate_field content field
  gate_parsed content (err e) = engine.trim content

  unfoldable pub gate_text : String → String
  unfolding gate_parsed
  gate_text content = elim (engine.json_parse content) [
    | none ↦ engine.trim content
    | some value ↦ gate_parsed content (property "text" value)
  ]

  unfoldable pub gate_command : Bool → Central → String → Option String → String → GateResult
  gate_command has_user_roles db content user_id agent_group_id =
      let text = gate_text content in
      let command = engine.command_word text in
      if not (engine.starts_with_slash text)
      then pass
      else if one_of filtered_commands command
      then filter
      else if one_of admin_commands command
      then (if is_admin has_user_roles db user_id agent_group_id then pass else deny command)
      else pass
