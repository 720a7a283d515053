-- ===== src/HostSweep/Decision.antt =====
-- `decideStuckAction` of src/host-sweep.ts. Ages are differences of instants; where an instant lies in
-- the future the age is negative in the source and 0 here, and both are below every limit.
use multi_user_agent_platfor.Base.{
  ℕ, ◌-◌, max, Bool, false, not, ◌&&◌, Option, none, some, List, [], ◌∷◌, String, if◌then◌else◌,
  ltb, leb, num_eq, column_is, coalesce,
}
use multi_user_agent_platfor.SessionDb.Inbound.{ProcessingAck}

abbrev pub absolute_ceiling_ms : ℕ
absolute_ceiling_ms = 1800000

abbrev pub claim_stuck_ms : ℕ
claim_stuck_ms = 60000

-- The row of container_state. A timeout that is no number counts as null.
pub record ContainerState : Type 0 where
  pub current_tool : Option String
  pub tool_declared_timeout_ms : Option ℕ

pub data StuckDecision : Type 0 where
  keep : StuckDecision
  kill_ceiling : (heartbeat_age_ms ceiling_ms : ℕ) → StuckDecision
  kill_claim : (message_id : String) (claim_age_ms tolerance_ms : ℕ) → StuckDecision

unfoldable pub bash_timeout_ms : Option ContainerState → Option ℕ
bash_timeout_ms none = none
bash_timeout_ms (some s) =
    if not (column_is s.current_tool "Bash") then none else s.tool_declared_timeout_ms

unfoldable pub ceiling : Option ContainerState → ℕ
ceiling state = max absolute_ceiling_ms (coalesce (bash_timeout_ms state) 0)

unfoldable pub tolerance : Option ContainerState → ℕ
tolerance state = max claim_stuck_ms (coalesce (bash_timeout_ms state) 0)

-- The claim is old, and the container gave no sign of life since. A timestamp that does not parse
-- never counts.
unfoldable pub is_stuck : ℕ → ℕ → ℕ → Option ℕ → Bool
is_stuck now heartbeat limit none = false
is_stuck now heartbeat limit (some claimed_at) =
    if leb (now - claimed_at) limit then false else not (ltb claimed_at heartbeat)

unfoldable pub first_stuck : ℕ → ℕ → ℕ → List ProcessingAck → StuckDecision
first_stuck now heartbeat limit [] = keep
first_stuck now heartbeat limit (c ∷ claims) =
    if is_stuck now heartbeat limit c.status_changed
    then kill_claim c.message_id (now - coalesce c.status_changed 0) limit
    else first_stuck now heartbeat limit claims

-- `heartbeat` is 0 where there is no heartbeat file.
unfoldable pub over_ceiling : ℕ → ℕ → Option ContainerState → Bool
over_ceiling now heartbeat state = not (num_eq heartbeat 0) && ltb (ceiling state) (now - heartbeat)

unfoldable pub decide_stuck_action :
    ℕ → ℕ → Option ContainerState → List ProcessingAck → StuckDecision
decide_stuck_action now heartbeat state claims =
    if over_ceiling now heartbeat state
    then kill_ceiling (now - heartbeat) (ceiling state)
    else first_stuck now heartbeat (tolerance state) claims
