-- ===== src/Tests/Sweep.antt =====
-- The sweep, the session tables and tasks at concrete inputs.
use multi_user_agent_platfor.Base.{
  ℕ, ◌<◌, ◌≤◌, ◌-◌, ◌%◌, true, false, none, some, List, [], ◌∷◌, ◌++◌, map, ◌≡◌, ◌↔◌, refl, In, All,
  exists, ◌==◌,
}
use multi_user_agent_platfor.Types.{MessageIn, task, processing, completed}
use multi_user_agent_platfor.SessionDb.Inbound.{
  NewMessage, ProcessingAck, message_row, insert_message, insert_row, next_even_seq, max_seq,
  sync_processing_acks, get_processing_claims,
}
use multi_user_agent_platfor.SessionDb.Sequence.{insert_message-appends}
use multi_user_agent_platfor.SessionDb.Acks.{synced, sync_processing_acks-one_pass}
use multi_user_agent_platfor.HostSweep.Decision.{
  ContainerState, keep, kill_claim, claim_stuck_ms, tolerance, is_stuck, over_ceiling,
  decide_stuck_action, first_stuck,
}
use multi_user_agent_platfor.HostSweep.Retry.{reset_claims, reset_stuck_processing_rows}
use multi_user_agent_platfor.HostSweep.Patience.{Beating, Honoured}
use multi_user_agent_platfor.HostSweep.Liveness.{
  decide_stuck_action-keep_iff, decide_stuck_action-kills_silent, reset-spares_next,
}
use multi_user_agent_platfor.HostSweep.RetryRows.{UniqueIds, after_reset, reset_claims-rows}
use multi_user_agent_platfor.Scheduling.Tasks.{pause_task, resume_task}
use multi_user_agent_platfor.Scheduling.Lifecycle.{NotPending, pause_task-holds_until_resume}

abbrev note : NewMessage
note = record {
  id = "n-1";
  kind = task;
  timestamp = 5;
  platform_id = none;
  channel_type = none;
  thread_id = none;
  content = "{}";
  process_after = none;
  recurrence = none;
  trigger = true;
  source_session_id = none;
  origin_user_id = none;
}

abbrev row : MessageIn
row = message_row note 2

abbrev rows : List MessageIn
rows = row ∷ []

abbrev second : NewMessage
second = record note { id = "n-2" }

insert_message-appends_example :
    (new : MessageIn) × (rows ++ message_row second 4 ∷ [] ≡ rows ++ new ∷ [])
    × (new.id ≡ "n-2")
    × (new.seq % 2 ≡ 0)
    × ((x : MessageIn) → In x rows → x.seq < new.seq)
    × (exists (λ x. x.id == "n-2") rows ≡ false)
unfolding insert_message insert_row exists next_even_seq max_seq
insert_message-appends_example =
    insert_message-appends second rows (rows ++ message_row second 4 ∷ []) refl

abbrev ack : ProcessingAck
ack = record { message_id = "n-1"; status = completed; status_changed = some 10 }

abbrev claim : ProcessingAck
claim = record { message_id = "n-1"; status = processing; status_changed = some 10 }

sync_processing_acks-one_pass_example :
    sync_processing_acks (ack ∷ []) rows ≡ map (synced (ack ∷ [])) rows
sync_processing_acks-one_pass_example = sync_processing_acks-one_pass (ack ∷ []) rows

reset_claims-rows_example :
    reset_claims 100 (claim ∷ []) rows ≡ map (after_reset 100 (claim ∷ [])) rows
unfolding UniqueIds exists
reset_claims-rows_example = reset_claims-rows 100 (claim ∷ []) rows (refl, tt)

decide_stuck_action-keep_iff_example :
    (decide_stuck_action 100000 5 none (claim ∷ []) ≡ keep)
    ↔ (Beating 100000 5 none × All (Honoured 100000 5 none) (claim ∷ []))
decide_stuck_action-keep_iff_example = decide_stuck_action-keep_iff 100000 5 none (claim ∷ [])

decide_stuck_action-kills_silent_example :
    (c : ProcessingAck) × In c (claim ∷ [])
    × (c.message_id ≡ "n-1")
    × ((claimed_at : ℕ) × (c.status_changed ≡ some claimed_at)
        × (5 ≤ claimed_at)
        × (claim_stuck_ms < 100000 - claimed_at))
unfolding decide_stuck_action over_ceiling multi_user_agent_platfor.HostSweep.Decision.ceiling
    multi_user_agent_platfor.HostSweep.Decision.bash_timeout_ms first_stuck is_stuck tolerance
decide_stuck_action-kills_silent_example =
    decide_stuck_action-kills_silent 100000 5 none (claim ∷ []) "n-1" 99990 60000 refl

reset-spares_next_example :
    decide_stuck_action 200000 0 none (
      get_processing_claims
        (reset_stuck_processing_rows 100 true (record { messages = rows; acks = claim ∷ [] })).acks)
    ≡ keep
reset-spares_next_example =
    reset-spares_next 100 200000 none (record { messages = rows; acks = claim ∷ [] })

pause_task-holds_until_resume_example :
    All (NotPending "n-1") (pause_task "n-1" rows)
    × (resume_task "n-1" (pause_task "n-1" rows) ≡ rows)
pause_task-holds_until_resume_example = pause_task-holds_until_resume "n-1" rows (refl, tt)
