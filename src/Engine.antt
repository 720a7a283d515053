-- ===== src/Engine.antt =====
-- What the JavaScript engine answers where the modelled code asks it: parsing, text and patterns.
-- None of it is code of this repository, so it is a parameter wherever it is used.
use multi_user_agent_platfor.Base.{ℕ, Bool, Option, String, Json}

pub record TextEngine : Type 0 where
  -- `JSON.parse`; `none` where it throws
  pub json_parse : String → Option Json
  -- `JSON.stringify`
  pub stringify : Json → String
  pub trim : String → String
  -- `text.replace(/pattern/gi, '')`
  pub remove_all : (pattern text : String) → String
  pub lower_case : String → String
  -- `text.replace(/pattern/g, replacement)`
  pub replace_all : (pattern replacement text : String) → String
  -- `text.slice(0, n)`
  pub slice_to : ℕ → String → String
  -- a number in a template text
  pub digits : ℕ → String
  -- `text.startsWith('/')`
  pub starts_with_slash : String → Bool
  -- `text.split(/\s/)[0].toLowerCase()`
  pub command_word : String → String
  -- `text.includes(':')`
  pub has_colon : String → Bool
  -- `new RegExp(pattern).test(text)`; `none` where the pattern is refused
  pub regex_test : String → Json → Option Bool
