-- ===== src/Delivery/Questions.antt =====
-- The questions that wait for an answer: src/channels/ask-question.ts, and pending_questions of
-- src/db/sessions.ts.
use multi_user_agent_platfor.Base.{
  ℕ, Bool, true, false, not, ◌||◌, Option, none, some, List, [], ◌∷◌, ◌++◌, String, ◌==◌,
  if◌then◌else◌, find, exists, delete_where, Result, ok, err, type_error, constraint, Json, Items,
  lookup_field,
}
use multi_user_agent_platfor.Base
use multi_user_agent_platfor.Types.{Central, PendingQuestion, NormalizedOption}

-- JavaScript's truth of a property.
abbrev pub json_truthy : Option Json → Bool
json_truthy none = false
json_truthy (some Base.null) = false
json_truthy (some (Base.bool b)) = b
json_truthy (some (Base.num n)) = not (n == "0")
json_truthy (some (Base.str s)) = not (s == "")
json_truthy (some _) = true

-- `value ?? other`
abbrev pub json_or : Option Json → Option Json → Option Json
json_or none other = other
json_or (some Base.null) other = other
json_or (some value) other = some value

unfoldable pub normalize_option : Json → Result NormalizedOption
normalize_option Base.null = err type_error
normalize_option (Base.str s) = ok (record {
  label = some (Base.str s);
  selected_label = some (Base.str s);
  value = some (Base.str s);
})
normalize_option (Base.obj fs) =
    let label = lookup_field "label" fs in
    ok (record {
      label = label;
      selected_label = json_or (lookup_field "selectedLabel" fs) label;
      value = json_or (lookup_field "value" fs) label;
    })
normalize_option _ = ok (record { label = none; selected_label = none; value = none })

abbrev pub prepend :
    Result NormalizedOption → Result (List NormalizedOption) → Result (List NormalizedOption)
prepend (err e) rest = err e
prepend (ok option) (err e) = err e
prepend (ok option) (ok options) = ok (option ∷ options)

unfoldable pub normalize_options : Items → Result (List NormalizedOption)
normalize_options Base.nil = ok []
normalize_options (Base.cons raw raws) = prepend (normalize_option raw) (normalize_options raws)

-- INSERT OR IGNORE: a question with this id stays as it is. A missing session still throws.
unfoldable pub create_pending_question : PendingQuestion → Central → Result Central
create_pending_question pq db =
    if exists (λ q. q.question_id == pq.question_id) db.pending_questions
    then ok db
    else if exists (λ s. s.id == pq.session_id) db.sessions
    then ok (record db { pending_questions = db.pending_questions ++ pq ∷ [] })
    else err (constraint "pending_questions")

unfoldable pub get_pending_question : Central → String → Option PendingQuestion
get_pending_question db question_id = find (λ q. q.question_id == question_id) db.pending_questions

unfoldable pub delete_pending_question : String → Central → Central
delete_pending_question question_id db = record db {
  pending_questions = delete_where (λ q. q.question_id == question_id) db.pending_questions;
}
