-- ===== src/Delivery/Completion.antt =====
-- How a drain of src/delivery.ts counts for the turn: answered, delegated or failed.
use multi_user_agent_platfor.Base.{
  Bool, true, false, not, ◌&&◌, ◌||◌, Option, none, some, List, [], ◌∷◌, String, ◌==◌,
  if◌then◌else◌, column_is, or_else, Json, Items, Fields, lookup_field, as_string,
}
use multi_user_agent_platfor.Base
use multi_user_agent_platfor.Engine.{TextEngine}
use multi_user_agent_platfor.Types.{MessageOut}

pub data CompletionKind : Type 0 where
  answered delegated failed : CompletionKind

-- Without the tags, which follow from the kind.
pub record DeliveryCompletion : Type 0 where
  pub kind : CompletionKind
  pub output_value : Option String

abbrev pub is_answered : CompletionKind → Bool
is_answered answered = true
is_answered _ = false

abbrev pub text_is : Option Json → String → Bool
text_is value s = column_is (as_string value) s

abbrev pub is_filled_array : Option Json → Bool
is_filled_array (some (Base.arr (Base.cons _ _))) = true
is_filled_array _ = false

abbrev pub is_false : Option Json → Bool
is_false (some (Base.bool false)) = true
is_false _ = false

module _ (engine : TextEngine) where
  -- `typeof value === 'string' && value.trim().length > 0`
  abbrev pub has_text : Option String → Bool
  has_text none = false
  has_text (some s) = not (engine.trim s == "")

  unfoldable pub is_user_visible_outbound : MessageOut → Fields → Bool
  is_user_visible_outbound msg content =
      if msg.kind == "system" || msg.kind == "llm-usage" || column_is msg.channel_type "agent"
      then false
      else if text_is (lookup_field "operation" content) "reaction"
          || text_is (lookup_field "operation" content) "edit"
      then false
      else if text_is (lookup_field "type" content) "ask_question"
          || text_is (lookup_field "type" content) "card"
      then true
      else has_text (as_string (lookup_field "text" content))
        || has_text (as_string (lookup_field "markdown" content))
        || is_filled_array (lookup_field "files" content)

  unfoldable pub strip_think_tags : String → String
  strip_think_tags text = engine.trim (
      engine.remove_all "<\\/?think(?:ing)?>"
        (engine.remove_all "<think(?:ing)?>[\\s\\S]*?<\\/think(?:ing)?>" text))

  abbrev pub stripped : Option String → Option String
  stripped none = none
  stripped (some s) = let text = strip_think_tags s in if text == "" then none else some text

  abbrev pub filled : Option String → Option String
  filled none = none
  filled (some s) = if engine.trim s == "" then none else some s

  unfoldable pub derive_delivery_completion : MessageOut → Fields → Option DeliveryCompletion
  derive_delivery_completion msg content =
      if column_is msg.channel_type "agent"
      then (if is_false (lookup_field "_downstreamAnswerExpected" content)
          then some (record { kind = delegated; output_value = none })
          else none)
      else if not (is_user_visible_outbound msg content)
      then none
      else some (record {
        kind = answered;
        output_value =
            or_else (stripped (as_string (lookup_field "text" content)))
              (filled (as_string (lookup_field "markdown" content)));
      })

-- An answer that is there stays; else the next one counts.
unfoldable pub merge_completion :
    Option DeliveryCompletion → Option DeliveryCompletion → Option DeliveryCompletion
merge_completion current none = current
merge_completion none (some next) = some next
merge_completion (some current) (some next) =
    if is_answered current.kind then some current else some next
