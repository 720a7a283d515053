-- ===== src/Lib.antt =====
-- The host process of a platform on which many users share agents: its model and its theorems.
--
-- The host receives messages from chat channels, decides who may talk to which agent group, finds
-- the session of a message, writes the message to that session's database, wakes the session's
-- container, and looks after containers and scheduled tasks. One central database holds users,
-- roles, members, chats and sessions; each session has an inbound.db and an outbound.db.
--
-- Parts and files:
--   Base          Boolean tests, tables as lists with the SQL statements, results, JSON values.
--   Types         the rows and enumerations of src/types.ts, and the central database.
--   Engine, Host  what is not code of the repository, as parameters: JSON, patterns, text,
--                 adapters, clocks and random ids. The message interceptor, the autowiring of
--                 new chats and the files of attachments are parameters too.
--   World         the state and the monad in which handlers run: a handler answers or throws,
--                 and what it wrote before it throws stays. Calls to containers and adapters are
--                 recorded as effects.
--   Permissions   src/modules/permissions/ and src/command-gate.ts, and the picking of approvers
--                 of src/modules/approvals/primitive.ts.
--   Sessions      src/db/sessions.ts and resolveSession of src/session-manager.ts.
--   SessionDb     messages_in and processing_ack of src/db/session-db.ts.
--   Router        src/router.ts: routeInbound, routeInboundInner, evaluateEngage, deliverToAgent.
--   AgentToAgent  src/modules/agent-to-agent/: routeAgentMessage and what it calls.
--   HostSweep     src/host-sweep.ts: decideStuckAction, resetStuckProcessingRows, sweepSession.
--   Scheduling    src/modules/scheduling/: tasks and their recurrence.
--   Wiring        src/db/messaging-groups.ts and src/db/agent-groups.ts: which agent groups serve a
--                 chat, and the loop for a free name.
--   ChannelApproval  src/modules/permissions/channel-approval.ts and its handlers in index.ts beside
--                 it: the registration of unknown chats.
--   Delivery      src/delivery.ts: the drain of messages_out with its retries, the permission check
--                 of chats, the reconciliation with the log of classifications, and how a turn ends.
--                 Polls has its interleavings as a step relation.
--   SessionArchive  src/session-archive.ts: archiving and hard deletes, with their interleavings.
--   CircuitBreaker  src/circuit-breaker.ts: the delay of a start after crashes.
--   MountSecurity  src/modules/mount-security/index.ts: which host directories a container may mount.
--   Container     container/agent-runner/src/db/: how the container claims and completes messages, and
--                 how it numbers its own.
--   DirectMessage  src/modules/permissions/user-dm.ts: the chat in which the host reaches a user. The
--                 other parts take its answer as a parameter.
--   Tests         the theorems at concrete inputs.
--
-- A TypeScript function keeps its name in snake case. A table is the list of its rows in the order
-- of insertion; keys and references are checked where the schema has them. NULL and undefined are
-- `none`; the empty text is falsy where the source tests a text for truth. Instants are milliseconds
-- as numbers, so SQL's datetime comparisons are comparisons of numbers. Loops are structural
-- recursions on lists, but for the loop for a free name, whose fuel is the number of rows and one:
-- each round finds another row's name. Handlers run one after another, but for the drains of
-- Delivery.Polls and the jobs of SessionArchive.Steps, whose steps come in any order.
--
-- Statements on the databases are taken to succeed unless a key or a reference refuses a row or a
-- comment names the failure.
--
-- Not modelled: files and processes, channel adapters, tracing, metrics, progress and typing
-- indicators, the texts of cards, migrations, and the poll loop, the providers
-- and the tools of the agent runner in the container.
pub mod Base
pub mod Types
pub mod Engine
pub mod World
pub mod Host
pub mod DroppedMessages
pub mod Permissions
pub mod SessionDb
pub mod Sessions
pub mod Router
pub mod HostSweep
pub mod Scheduling
pub mod AgentToAgent
pub mod Wiring
pub mod ChannelApproval
pub mod Delivery
pub mod SessionArchive
pub mod CircuitBreaker
pub mod MountSecurity
pub mod Container
pub mod DirectMessage
pub mod Tests
