-- ===== src/Scheduling/Update.antt =====
-- `updateTask` of src/modules/scheduling/db.ts.
use multi_user_agent_platfor.Base.{
  ℕ, ◌&&◌, Option, none, some, List, [], ◌∷◌, String, ◌==◌, if◌then◌else◌, is_null, coalesce,
  length, select, update_where, Result, ok, err, thrown, type_error, Json, null, bool, num, str,
  arr, obj, Fields, end, field,
}
use multi_user_agent_platfor.Engine.{TextEngine}
use multi_user_agent_platfor.Types.{MessageIn}
use multi_user_agent_platfor.Scheduling.Tasks.{is_task_of, is_live}

-- `none` is a field that the caller leaves out.
pub record TaskUpdate : Type 0 where
  pub prompt : Option String
  pub script : Option (Option String)
  pub recurrence : Option (Option String)
  pub process_after : Option ℕ

abbrev pub text_or_null : Option String → Json
text_or_null none = null
text_or_null (some s) = str s

-- A property that is there keeps its place; a new one comes last.
unfoldable pub put_field : String → Json → Fields → Fields
put_field k value end = field k value end
put_field k value (field j v fs) =
    let rest = put_field k value fs in if j == k then field j value fs else field j v rest

-- `parsed.k = v` in a module: what has no properties throws, and the text of an array has none.
abbrev pub set_property : String → Json → Json → Result Json
set_property k v (obj fs) = ok (obj (put_field k v fs))
set_property k v (arr items) = ok (arr items)
set_property k v null = err type_error
set_property k v (bool b) = err type_error
set_property k v (num n) = err type_error
set_property k v (str s) = err type_error

abbrev pub set_if : String → Option Json → Result Json → Result Json
set_if k v (err e) = err e
set_if k none (ok parsed) = ok parsed
set_if k (some v) (ok parsed) = set_property k v parsed

-- What `JSON.parse` answers, or its exception.
abbrev pub parsed_or : Option Json → Result Json
parsed_or none = err (thrown "JSON.parse")
parsed_or (some value) = ok value

module _ (engine : TextEngine) (update : TaskUpdate) where
  abbrev pub stringified : Result Json → Result String
  stringified (err e) = err e
  stringified (ok value) = ok (engine.stringify value)

  abbrev pub script_value : Option (Option String) → Option Json
  script_value none = none
  script_value (some s) = some (text_or_null s)

  abbrev pub prompt_value : Option String → Option Json
  prompt_value none = none
  prompt_value (some s) = some (str s)

  unfoldable pub merged_content : String → Result String
  merged_content content =
      if is_null update.prompt && is_null update.script
      then ok content
      else stringified (
          set_if "script" (script_value update.script)
            (set_if "prompt" (prompt_value update.prompt) (parsed_or (engine.json_parse content))))

  abbrev pub set_columns : String → MessageIn → MessageIn
  set_columns content m = record m {
    content = content;
    process_after = elim update.process_after [ none ↦ m.process_after | some t ↦ some t ];
    recurrence = coalesce update.recurrence m.recurrence;
  }

  abbrev pub set_row : String → Result String → List MessageIn → Result (List MessageIn)
  set_row id (err e) ms = err e
  set_row id (ok content) ms = ok (update_where (λ m. m.id == id) (set_columns content) ms)

  abbrev pub set_next :
      (List MessageIn → Result (List MessageIn)) → Result (List MessageIn) → Result (List MessageIn)
  set_next k (err e) = err e
  set_next k (ok ms) = k ms

  unfoldable pub set_rows : List MessageIn → List MessageIn → Result (List MessageIn)
  set_rows [] ms = ok ms
  set_rows (row ∷ rows) ms =
      set_next (set_rows rows) (set_row row.id (merged_content row.content) ms)

  abbrev pub touched : List MessageIn → Result (List MessageIn) → Result (ℕ × List MessageIn)
  touched rows (err e) = err e
  touched rows (ok ms) = ok (length rows, ms)

  -- How many rows were touched, and the table. An exception rolls the transaction back: the caller
  -- keeps the table that it had.
  unfoldable pub update_task : String → List MessageIn → Result (ℕ × List MessageIn)
  update_task id ms =
      let rows = select (λ m. is_task_of id m && is_live m) ms in touched rows (set_rows rows ms)
