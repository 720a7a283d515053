-- ===== src/Scheduling/Tasks.antt =====
-- src/modules/scheduling/db.ts and src/modules/scheduling/recurrence.ts: tasks are rows of messages_in.
use Prim.Native.String
use multi_user_agent_platfor.Base.{
  ℕ, ◌+◌, Bool, true, not, ◌&&◌, ◌||◌, Option, none, some, List, [], ◌∷◌, String, ◌==◌,
  if◌then◌else◌, is_null, column_is, coalesce, select, update_where, Result, ok, err,
}
use multi_user_agent_platfor.Types.{
  MessageIn, task, pending, completed, paused, status_is, kind_is_task,
}
use multi_user_agent_platfor.SessionDb.Inbound.{next_even_seq, insert_row}

-- What `insertTask` is given.
pub record NewTask : Type 0 where
  pub id : String
  pub process_after : ℕ
  pub recurrence : Option String
  pub platform_id : Option String
  pub channel_type : Option String
  pub thread_id : Option String
  pub content : String

-- The columns that the statement leaves out have the defaults of the schema: a row triggers.
abbrev pub task_row : ℕ → NewTask → ℕ → MessageIn
task_row now t seq = record {
  id = t.id;
  seq = seq;
  kind = task;
  timestamp = now;
  status = pending;
  process_after = some t.process_after;
  recurrence = t.recurrence;
  series_id = some t.id;
  tries = 0;
  trigger = true;
  platform_id = t.platform_id;
  channel_type = t.channel_type;
  thread_id = t.thread_id;
  content = t.content;
  source_session_id = none;
  origin_user_id = none;
}

unfoldable pub insert_task : ℕ → NewTask → List MessageIn → Result (List MessageIn)
insert_task now t ms = insert_row (task_row now t (next_even_seq ms)) ms

-- (id = ? OR series_id = ?) AND kind = 'task'
abbrev pub is_task_of : String → MessageIn → Bool
is_task_of id m = (m.id == id || column_is m.series_id id) && kind_is_task m.kind

-- status IN ('pending', 'paused')
abbrev pub is_live : MessageIn → Bool
is_live m = status_is m.status pending || status_is m.status paused

unfoldable pub cancel_task : String → List MessageIn → List MessageIn
cancel_task id =
    update_where (λ m. is_task_of id m && is_live m)
      (λ m. record m { status = completed; recurrence = none })

unfoldable pub pause_task : String → List MessageIn → List MessageIn
pause_task id =
    update_where (λ m. is_task_of id m && status_is m.status pending)
      (λ m. record m { status = paused })

unfoldable pub resume_task : String → List MessageIn → List MessageIn
resume_task id =
    update_where (λ m. is_task_of id m && status_is m.status paused)
      (λ m. record m { status = pending })

unfoldable pub get_completed_recurring : List MessageIn → List MessageIn
get_completed_recurring = select (λ m. status_is m.status completed && not (is_null m.recurrence))

abbrev pub recurrence_row : ℕ → MessageIn → String → ℕ → ℕ → MessageIn
recurrence_row now m new_id next_run seq = record {
  id = new_id;
  seq = seq;
  kind = m.kind;
  timestamp = now;
  status = pending;
  process_after = some next_run;
  recurrence = m.recurrence;
  series_id = m.series_id;
  tries = 0;
  trigger = true;
  platform_id = m.platform_id;
  channel_type = m.channel_type;
  thread_id = m.thread_id;
  content = m.content;
  source_session_id = none;
  origin_user_id = none;
}

unfoldable pub insert_recurrence :
    ℕ → MessageIn → String → ℕ → List MessageIn → Result (List MessageIn)
insert_recurrence now m new_id next_run ms =
    insert_row (recurrence_row now m new_id next_run (next_even_seq ms)) ms

unfoldable pub clear_recurrence : String → List MessageIn → List MessageIn
clear_recurrence id = update_where (λ m. m.id == id) (λ m. record m { recurrence = none })

-- `next_run` is the cron parser's: the next time of an expression in the user's time zone, `none`
-- where it does not parse. `gen` draws the random part of an id.
module _ (now : ℕ) (next_run : String → Option ℕ) (gen : ℕ → String) where
  abbrev pub recurrence_id : MessageIn → ℕ → String
  recurrence_id m n =
      if kind_is_task m.kind then String.◌++◌ "task-" (gen n) else String.◌++◌ "msg-" (gen n)

  -- What is thrown for one row is logged, and the loop goes on.
  abbrev pub cleared : MessageIn → List MessageIn → Result (List MessageIn) → List MessageIn
  cleared m ms (err e) = ms
  cleared m ms (ok inserted) = clear_recurrence m.id inserted

  abbrev pub recur_at : MessageIn → ℕ → Option ℕ → List MessageIn → List MessageIn
  recur_at m n none ms = ms
  recur_at m n (some t) ms = cleared m ms (insert_recurrence now m (recurrence_id m n) t ms)

  unfoldable pub recur_all : List MessageIn → ℕ → List MessageIn → List MessageIn
  recur_all [] n ms = ms
  recur_all (m ∷ recurring) n ms =
      recur_all recurring (n + 1) (recur_at m n (next_run (coalesce m.recurrence "")) ms)

  unfoldable pub handle_recurrence : ℕ → List MessageIn → List MessageIn
  handle_recurrence n ms = recur_all (get_completed_recurring ms) n ms
