-- ===== src/Tests/Lifecycle.antt =====
-- The archive of sessions, the delay of starts, and wiring at concrete inputs.
use Prim.Native.String
use text.Mathlib.TextLemmas.{append_cancel_left, length-append}
use multi_user_agent_platfor.Base.{
  ℕ, zero, suc, ◌+◌, ◌≤◌, Bool, true, false, Option, none, some, List, [], ◌∷◌, length, String,
  ◌==◌, ◌≡◌, refl, sym, ap, ◌∙◌, inl, arith, eq_iff, In, exists, Result, ok, err, Distinct,
}
use multi_user_agent_platfor.Types.{Session, PendingQuestion}
use multi_user_agent_platfor.World.{World}
use multi_user_agent_platfor.Sessions.Table.{apply_updates}
use multi_user_agent_platfor.SessionArchive.Jobs.{
  Folder, Job, Lifecycle, archived_now, folder_of, finish_archive, sweep_archive, sweep_delete,
  hard_delete_archived_session,
}
use multi_user_agent_platfor.SessionArchive.Retention.{
  finish_archive-retained, hard_delete-loses_tarball,
}
use multi_user_agent_platfor.SessionArchive.Steps.{
  here, and_then, archive_tick, Orderly, Reachable-Orderly,
}
use multi_user_agent_platfor.CircuitBreaker.{
  get_elem?, enforce_startup_backoff, crashes, backoff_schedule_s,
  enforce_startup_backoff-counts_crashes,
}
use multi_user_agent_platfor.Wiring.Chats.{insert_wiring}
use multi_user_agent_platfor.Wiring.FreeName.{free_name}
use multi_user_agent_platfor.Wiring.Wire.{create_messaging_group_agent}
use multi_user_agent_platfor.Wiring.Pigeonhole.{free_name-ends}
use multi_user_agent_platfor.Wiring.Reach.{create_messaging_group_agent-may_send}
use multi_user_agent_platfor.Delivery.Send.{may_send}
use multi_user_agent_platfor.Tests.Delivery.{outlet}
use multi_user_agent_platfor.Tests.Data.{
  strokes, engine, central, world, wiring, chat_group, desk_session,
}

-- Idle since the first day, in a world of a hundred days.
abbrev idle_session : Session
idle_session = record desk_session { last_active = some 5 }

abbrev later : ℕ
later = 8640000000

abbrev lifecycle : Lifecycle
lifecycle = record {
  central = record central { sessions = idle_session ∷ [] };
  directories = record { agent_group_id = "desk"; session_id = "s-1" } ∷ [];
  tarballs = [];
  jobs = [];
}

abbrev job : Job
job = record { session = idle_session; now = later; has_directory = true }

finish_archive-retained_example :
    In
      (apply_updates (archived_now later) idle_session)
      (sweep_delete 30 (later + 1) (finish_archive job lifecycle)).central.sessions
finish_archive-retained_example =
    finish_archive-retained job lifecycle idle_session 30 (later + 1) (tt, tt) (inl refl) refl
      (ground arith)

abbrev question : PendingQuestion
question = record {
  question_id = "q-1";
  session_id = "s-1";
  message_out_id = "out-1";
  platform_id = none;
  channel_type = none;
  thread_id = none;
  title = "which";
  options = [];
  created_at = 3;
}

abbrev asked : Lifecycle
asked = record lifecycle {
  central = record central { sessions = idle_session ∷ []; pending_questions = question ∷ [] };
  tarballs = record { agent_group_id = "desk"; session_id = "s-1" } ∷ [];
}

hard_delete-loses_tarball_example :
    ((hard_delete_archived_session idle_session asked).central ≡ asked.central)
    × (exists (folder_of idle_session) (hard_delete_archived_session idle_session asked).tarballs
        ≡ false)
unfolding exists
hard_delete-loses_tarball_example = hard_delete-loses_tarball idle_session asked (inl refl) refl

Reachable-Orderly_example : Orderly 10 0 (sweep_archive 10 later lifecycle)
Reachable-Orderly_example =
    Reachable-Orderly 10 0 lifecycle (sweep_archive 10 later lifecycle)
      (and_then lifecycle (sweep_archive 10 later lifecycle) here (archive_tick lifecycle later))
      (record { idle = tt; alone = tt })

begun : length (sweep_archive 10 later lifecycle).jobs ≡ 1
unfolding sweep_archive multi_user_agent_platfor.SessionArchive.Jobs.begin_all
    multi_user_agent_platfor.Sessions.Table.find_archivable_sessions
    multi_user_agent_platfor.Sessions.Table.limit multi_user_agent_platfor.Base.order_by
    multi_user_agent_platfor.Base.select multi_user_agent_platfor.SessionArchive.Jobs.cutoff
    multi_user_agent_platfor.SessionArchive.Jobs.begin_archive
    multi_user_agent_platfor.SessionArchive.Jobs.in_progress exists
begun = refl

enforce_startup_backoff-counts_crashes_example :
    (enforce_startup_backoff 60000 (crashes (10000 ∷ 20000 ∷ 30000 ∷ []) none)).1
    ≡ get_elem? 3 backoff_schedule_s
enforce_startup_backoff-counts_crashes_example =
    enforce_startup_backoff-counts_crashes 10000 (20000 ∷ 30000 ∷ []) 60000
      (ground arith, (ground arith, (ground arith, tt)))

strokes-injective : (m n : ℕ) → strokes m ≡ strokes n → m ≡ n
strokes-injective zero zero e = refl
strokes-injective zero (suc n) e =
    let l = ap String.count e ∙ length-append "|" (strokes n) in ground arith
strokes-injective (suc m) zero e =
    let l = sym (ap String.count e) ∙ length-append "|" (strokes m) in ground arith
strokes-injective (suc m) (suc n) e = ap suc (strokes-injective m n (append_cancel_left "|" _ _ e))

free_name-ends_example :
    (found : String) × (free_name engine (λ s. exists (λ t. t == s) ("desk" ∷ [])) 2 "desk"
      ≡ some found)
    × (exists (λ t. t == found) ("desk" ∷ []) ≡ false)
free_name-ends_example =
    free_name-ends engine strokes-injective (λ s t. t == s)
      (λ r a b i j. ground (arith, eq_iff r a, eq_iff r b)) "desk" ("desk" ∷ [])

-- The chat, before its agent is wired.
abbrev unwired : World
unwired = record world { central = record central { messaging_group_agents = [] } }

create_messaging_group_agent-may_send_example :
    ((create_messaging_group_agent engine wiring unwired).0 ≡ ok tt)
    × (may_send
          (outlet true)
          (create_messaging_group_agent engine wiring unwired).1.central
          desk_session
          chat_group
        ≡ true)
unfolding insert_wiring exists multi_user_agent_platfor.Sessions.Table.messaging_group_exists
    multi_user_agent_platfor.Permissions.Roles.agent_group_exists
create_messaging_group_agent-may_send_example =
    create_messaging_group_agent-may_send engine strokes-injective wiring unwired central
      (outlet true) desk_session chat_group refl refl refl
