-- ===== src/Base/Values.antt =====
-- JSON values as `JSON.parse` gives them, and reading a property of one.
-- `JSON.parse` and `JSON.stringify` are the engine's, and parameters where they are used.
use Prim.Native.String.{String}
use mathlib.Core.Bool.{Bool}
use mathlib.Core.Option.{Option, none, some}
use text.Mathlib.Text.{◌==◌}
use multi_user_agent_platfor.Base.Tests.{if◌then◌else◌}
use multi_user_agent_platfor.Base.Results.{Result, ok, err, type_error}

mutual
  pub data Json : Type 0 where
    null : Json
    bool : Bool → Json
    -- a number, by the text that `String()` gives it
    num : String → Json
    str : String → Json
    arr : Items → Json
    obj : Fields → Json

  pub data Items : Type 0 where
    nil : Items
    cons : Json → Items → Items

  pub data Fields : Type 0 where
    end : Fields
    field : String → Json → Fields → Fields

unfoldable pub lookup_field : String → Fields → Option Json
lookup_field k end = none
lookup_field k (field j v fs) = if j == k then some v else lookup_field k fs

-- `value.k`: `none` is undefined, and null has no properties.
abbrev pub property : String → Json → Result (Option Json)
property k null = err type_error
property k (obj fs) = ok (lookup_field k fs)
property k (bool b) = ok none
property k (num n) = ok none
property k (str s) = ok none
property k (arr items) = ok none

-- `typeof value === 'string' ? value : undefined`
abbrev pub as_string : Option Json → Option String
as_string (some (str s)) = some s
as_string _ = none

-- `value ?? null` where it is bound to a TEXT column: better-sqlite3 takes texts, numbers and null.
abbrev pub bind_text : Option Json → Result (Option String)
bind_text none = ok none
bind_text (some null) = ok none
bind_text (some (str s)) = ok (some s)
bind_text (some (num n)) = ok (some n)
bind_text (some _) = err type_error

-- `author?.k` as a text, where `author` is an object.
abbrev pub object_text : String → Option Json → Option String
object_text k (some (obj fs)) = as_string (lookup_field k fs)
object_text k _ = none
