-- ===== src/Lib.antt =====
-- AgentAgora is a message broker for agents: workers and bots register, and dispatch messages to each
-- other's inboxes through one router. This library models the core of the server.
--
-- Parts, and the files that model them:
--   Registry, Registry/*    src/agent_agora/registry/core.py and bot.py: the maps between sessions and
--                           instances, with the index of the bots as hooks of a generic registry.
--   CommMatrix, CommMatrix/*  src/agent_agora/comm_matrix.py: who may dispatch to whom.
--   Schemas, Schemas/*      src/agent_agora/storage/schemas.py: message types and who holds them.
--   Conversations, Conversations/*  src/agent_agora/conversation_store.py: threads and their end.
--   Envelope, Errors        src/agent_agora/envelope.py and errors.py: a message, and what is raised.
--   Dispatcher, Dispatcher/*  src/agent_agora/dispatcher.py and persist_dispatch_txn of
--                           dispatch_persistence.py. Checks, Fanout, Dispatch, Broadcast, Emit, Flush,
--                           Wait, Deadlines, Cancel, Views and Threads hold the operations; Delivery,
--                           Outcome, Access, Wakeups, Steps, Depth, Drained, Replies, Covered and the
--                           modules below Threads what is proved of them.
--   Storage, Storage/*      src/agent_agora/storage/persistence.py, the restart of dispatch_persistence.py
--                           and of dispatcher.py: the tables, the write queue, and what comes back.
--   Server, Server/*        src/agent_agora/server.py and http/auto_register.py: the tools of a session.
--   Files, Files/*          src/agent_agora/files: the policy, the store and the routes of shared files.
--   Dashboard, Dashboard/*  src/agent_agora/dashboard: the operators' event streams, their
--                           authentication, the newest log records and the series of the metrics.
--   Sweeper, Sweeper/*      src/agent_agora/sweeper.py: the sweeps of the background loop.
--   Prelude, Text, Json     Python's lists, dicts, sets, sorting, texts and JSON values.
--   Tests                   a small router, run, and the theorems at concrete inputs.
--
-- The router's state is the record Dispatcher. An operation takes it and returns its result with the
-- new state; a check that may raise is a Result. The registries, the matrix, the schemas and the
-- conversations are fields of the record, as they are attributes of the object. `broadcast` is called
-- `announce` here, since `broadcast` is a kind of conversation.
--
-- Conventions. A time is its number of microseconds: texts of the same offset compare as their
-- instants do. A deadline is given as an instant, or as a text that is none. A set is a list in the
-- order of insertion; a defaultdict that nothing iterates over is a function. New ids, the clock,
-- the commit of a write and the database's answers are read from a World record; regular
-- expressions, JSON Schema and the size of a JSON text are parameters. What runs under the lock is
-- one step. `dispatch` is its checks and then `deliver`, and the lemmas on `deliver` hold for any
-- plan, so also for one made earlier. A pattern that was never compiled matches nothing, where the
-- code has a KeyError; a loaded matrix has none. Loops go over a list; only the search for cycles
-- runs on fuel, of which the number of patterns is enough.
--
-- Not modelled: HTTP and MCP glue and the client programs, which are input and output; of the storage,
-- migration and full text search; provisioning; of the server's tools, the listings.
pub mod Prelude
pub mod Errors
pub mod Text
pub mod Json
pub mod Schemas
pub mod Conversations
pub mod Envelope
pub mod Dispatcher
pub mod Sweeper
pub mod Tests
pub mod Registry
pub mod CommMatrix
pub mod Dashboard
pub mod Storage
pub mod Server
pub mod Files
