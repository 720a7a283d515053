-- ===== src/Scheduling/Lifecycle.antt =====
-- What cancelling, pausing and resuming a task promise.
use multi_user_agent_platfor.Base.{
  true, false, ◌&&◌, List, [], ◌∷◌, String, ◌≡◌, ◌≢◌, ◌⊎◌, some, eq_refl, refl, sym, ap, arith,
  if◌then◌else◌, select, update_where, All, Bool-cases, inl, inr,
}
use multi_user_agent_platfor.Types.{
  MessageIn, MessageInStatus, pending, processing, completed, failed, paused, status_is, task,
}
use multi_user_agent_platfor.Scheduling.Tasks.{
  is_task_of, is_live, cancel_task, pause_task, resume_task, get_completed_recurring,
}

-- The task is over: none of its rows is live, and none of them will recur.
abbrev pub Over : String → MessageIn → Type 0
Over id m = (is_task_of id m && is_live m) ≡ false

-- After a cancellation no row of the task, and no row of its series, is pending or paused.
pub cancel_task-Over : (id : String) (ms : List MessageIn) → All (Over id) (cancel_task id ms)
unfolding cancel_task update_where
cancel_task-Over id [] = tt
cancel_task-Over id (m ∷ ms) = (ground arith, cancel_task-Over id ms)

-- A cancelled task does not come back: cancelling changes nothing about which completed rows are
-- picked for their next occurrence.
pub cancel_task-no_recurrence :
    (id : String) (ms : List MessageIn)
    → get_completed_recurring (cancel_task id ms) ≡ get_completed_recurring ms
unfolding cancel_task update_where get_completed_recurring select
cancel_task-no_recurrence id [] = refl
cancel_task-no_recurrence id (m ∷ ms) = ground (arith, cancel_task-no_recurrence id ms)

status-of : (s : MessageInStatus) → status_is s pending ≡ true → s ≡ pending
status-of pending h = refl
status-of processing h = cc
status-of completed h = cc
status-of failed h = cc
status-of paused h = cc

pending-again :
    (m : MessageIn) → status_is m.status pending ≡ true → record m { status = pending } ≡ m
pending-again m h = ap (λ s. record m { status = s }) (sym (status-of m.status h))

resume-pause_row :
    (id : String) (m : MessageIn)
    → (is_task_of id m && status_is m.status paused) ≡ false
    → (let p =
          (if is_task_of id m && status_is m.status pending
            then record m { status = paused }
            else m) in
        if is_task_of id p && status_is p.status paused then record p { status = pending } else p)
      ≡ m
resume-pause_row id m h = elim (Bool-cases (status_is m.status pending)) [
  | inl waiting ↦ let e = pending-again m waiting in ground arith
  | inr other ↦ ground arith
]

resume-pause :
    (id : String) (ms : List MessageIn)
    → All (λ m. (is_task_of id m && status_is m.status paused) ≡ false) ms
    → resume_task id (pause_task id ms) ≡ ms
unfolding resume_task pause_task update_where
resume-pause id [] h = refl
resume-pause id (m ∷ ms) (h, hs) = rw (resume-pause_row id m h, resume-pause id ms hs) refl

-- A row of the task or of its series, by their ids, is not pending.
abbrev pub NotPending : String → MessageIn → Type 0
NotPending id m = m.kind ≡ task → (m.id ≡ id) ⊎ (m.series_id ≡ some id) → m.status ≢ pending

is_task_of-row :
    (id : String) (m : MessageIn)
    → m.kind ≡ task
    → (m.id ≡ id) ⊎ (m.series_id ≡ some id)
    → is_task_of id m ≡ true
is_task_of-row id m k (inl e) = rw (k, e, eq_refl id) refl
is_task_of-row id m k (inr e) = rw (k, e, eq_refl id) ground arith

pause-NotPending :
    (id : String) (m : MessageIn)
    → NotPending id
        (if is_task_of id m && status_is m.status pending then record m { status = paused } else m)
pause-NotPending id m = elim (Bool-cases (is_task_of id m && status_is m.status pending)) [
  | inl hit ↦ rw hit (λ k e p. cc)
  | inr miss ↦
      rw miss (λ k e p. let t = is_task_of-row id m k e in let wrong = rw (t, p) at miss in cc)
]

pause_task-NotPending : (id : String) (ms : List MessageIn) → All (NotPending id) (pause_task id ms)
unfolding pause_task update_where
pause_task-NotPending id [] = tt
pause_task-NotPending id (m ∷ ms) = (pause-NotPending id m, pause_task-NotPending id ms)

-- Where no row of a task was paused before, pausing it leaves no row of the task or of its series
-- pending, and resuming it then gives all rows back as they were.
pub pause_task-holds_until_resume :
    (id : String) (ms : List MessageIn)
    → All (λ m. (is_task_of id m && status_is m.status paused) ≡ false) ms
    → All (NotPending id) (pause_task id ms) × (resume_task id (pause_task id ms) ≡ ms)
pause_task-holds_until_resume id ms h = (pause_task-NotPending id ms, resume-pause id ms h)
