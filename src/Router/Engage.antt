-- ===== src/Router/Engage.antt =====
-- Which session mode is in effect and whether a wired agent engages: the pure part of src/router.ts.
use multi_user_agent_platfor.Base.{
  Bool, true, false, not, ◌||◌, Option, none, String, ◌==◌, if◌then◌else◌, truthy, coalesce,
  is_null, Json,
}
use multi_user_agent_platfor.Engine.{TextEngine}
use multi_user_agent_platfor.Types.{
  Central, MessagingGroup, MessagingGroupAgent, pattern, mention, mention_sticky, SessionMode,
  shared, per_thread, agent_shared, per_user, per_user_per_thread,
}
use multi_user_agent_platfor.Sessions.Table.{
  find_session_by_agent_group, find_session_for_agent, find_session_for_agent_owner,
}

abbrev pub is_threaded_mode : SessionMode → Bool
is_threaded_mode agent_shared = true
is_threaded_mode per_thread = true
is_threaded_mode per_user_per_thread = true
is_threaded_mode _ = false

abbrev pub is_per_user : SessionMode → Bool
is_per_user per_user = true
is_per_user _ = false

-- In a group of a threaded platform the unthreaded modes become their threaded counterparts.
unfoldable pub resolve_effective_session_mode : SessionMode → Bool → Bool → SessionMode
resolve_effective_session_mode mode adapter_supports_threads is_group_chat =
    if not adapter_supports_threads || not is_group_chat
    then mode
    else if is_threaded_mode mode
    then mode
    else if is_per_user mode
    then per_user_per_thread
    else per_thread

-- The sticky follow-up: a session of the routing scope exists.
unfoldable pub has_sticky_session :
    Central → String → String → Option String → Option String → SessionMode → Bool
has_sticky_session db agent_group_id mg_id thread_id user_id agent_shared =
    not (is_null (find_session_by_agent_group db agent_group_id))
has_sticky_session db agent_group_id mg_id thread_id user_id per_user =
    if not (truthy user_id)
    then false
    else not
        (is_null (find_session_for_agent_owner db agent_group_id mg_id (coalesce user_id "") none))
has_sticky_session db agent_group_id mg_id thread_id user_id per_user_per_thread =
    if not (truthy user_id)
    then false
    else not (
        is_null
          (find_session_for_agent_owner db agent_group_id mg_id (coalesce user_id "") thread_id))
has_sticky_session db agent_group_id mg_id thread_id user_id shared =
    not (is_null (find_session_for_agent db agent_group_id mg_id none))
has_sticky_session db agent_group_id mg_id thread_id user_id per_thread =
    not (is_null (find_session_for_agent db agent_group_id mg_id thread_id))

-- A pattern that is no regular expression matches everything.
unfoldable pub pattern_matches : TextEngine → Option String → Json → Bool
pattern_matches engine engage_pattern text =
    let pat = coalesce engage_pattern "." in
    if pat == "." then true else coalesce (engine.regex_test pat text) true

unfoldable pub evaluate_engage :
    TextEngine
    → Central
    → MessagingGroupAgent
    → Json
    → Bool
    → MessagingGroup
    → Option String
    → SessionMode
    → Option String
    → Bool
evaluate_engage engine db agent text is_mention mg thread_id mode user_id = elim agent.engage_mode [
  | pattern ↦ pattern_matches engine agent.engage_pattern text
  | mention ↦ is_mention
  | mention_sticky ↦
      if is_mention
      then true
      else if not mg.is_group
      then false
      else has_sticky_session db agent.agent_group_id mg.id thread_id user_id mode
]
