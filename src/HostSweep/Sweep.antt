-- ===== src/HostSweep/Sweep.antt =====
-- `sweepSession` of src/host-sweep.ts, for a session whose files exist. The container runtime is a
-- parameter: whether a container runs, and whether waking one succeeds.
use multi_user_agent_platfor.Base.{
  ℕ, String, Bool, not, ◌&&◌, ◌||◌, Option, List, [], ◌∷◌, if◌then◌else◌, ltb,
}
use multi_user_agent_platfor.SessionDb.Inbound.{
  sync_processing_acks, count_due_messages, get_processing_claims,
}
use multi_user_agent_platfor.HostSweep.Decision.{
  ContainerState, StuckDecision, keep, kill_ceiling, kill_claim, decide_stuck_action,
}
use multi_user_agent_platfor.Scheduling.Tasks.{handle_recurrence}
use multi_user_agent_platfor.HostSweep.Retry.{SessionFiles, reset_stuck_processing_rows}

pub data Action : Type 0 where
  wake kill : Action

-- What the sweep sees of a session.
pub record Surroundings : Type 0 where
  -- the clock
  pub now : ℕ
  -- whether a container of the session runs
  pub running : Bool
  -- whether `wakeContainer` starts one
  pub wakes : Bool
  -- the time of the heartbeat file, 0 where there is none
  pub heartbeat : ℕ
  pub state : Option ContainerState
  -- whether outbound.db exists, and whether it can be written
  pub has_outbound : Bool
  pub writable : Bool
  -- the cron parser, and the random part of ids
  pub next_run : String → Option ℕ
  pub gen : ℕ → String

unfoldable pub enforce_running_container_sla :
    Surroundings → SessionFiles → SessionFiles × List Action
enforce_running_container_sla s f =
    by_decision (decide_stuck_action s.now s.heartbeat s.state (get_processing_claims f.acks))
  where
    by_decision : StuckDecision → SessionFiles × List Action
    by_decision keep = (f, [])
    by_decision (kill_ceiling _ _) = (reset_stuck_processing_rows s.now s.writable f, kill ∷ [])
    by_decision (kill_claim _ _ _) = (reset_stuck_processing_rows s.now s.writable f, kill ∷ [])

abbrev pub sync : Surroundings → SessionFiles → SessionFiles
sync s f = record f {
  messages = if s.has_outbound then sync_processing_acks f.acks f.messages else f.messages;
}

abbrev pub needs_wake : Surroundings → SessionFiles → Bool
needs_wake s f = ltb 0 (count_due_messages s.now f.messages) && not s.running

unfoldable pub after_wake : Surroundings → Bool → SessionFiles → SessionFiles × List Action
after_wake s alive f =
    if not s.has_outbound
    then (f, [])
    else if alive
    then enforce_running_container_sla s f
    else (reset_stuck_processing_rows s.now s.writable f, [])

abbrev pub recur : Surroundings → SessionFiles → SessionFiles
recur s f = record f { messages = handle_recurrence s.now s.next_run s.gen 0 f.messages }

unfoldable pub sweep_session : Surroundings → SessionFiles → SessionFiles × List Action
sweep_session s f =
    let synced = sync s f in
    let woken = needs_wake s synced in
    let rest = after_wake s (s.running || woken && s.wakes) synced in
    (recur s rest.0, (if woken then wake ∷ rest.1 else rest.1))
