-- ===== src/Lib.antt =====
-- Verification of CCA, a daemon that lets several command-line agents work on one task: agents talk to
-- it over WebSockets (ACP, JSON-RPC messages), an orchestrator hands them tasks, and a small learner
-- helps to choose among them.
--
-- The parts and their files. A module stands for a source file or a part of one; a call of a method is
-- a function from the state to the state and its answer, and an argument `now` is the clock.
--   Core.Task, Core.Role: crates/cca-core/src/task.rs and agent.rs. `Task`, `TaskResult` and
--     `AgentRole` with the methods of these names.
--   Acp.Message: `AcpMessage` and `AcpError` of crates/cca-core/src/communication.rs.
--   Acp.Auth: `AcpAuthConfig` of crates/cca-acp/src/server.rs, and `constant_time_eq` of
--     crates/cca-core/src/util.rs.
--   Acp.Connection: `BackpressureMetrics`, `AgentConnection`, `try_send_with_backpressure`.
--   Acp.Server: `AcpServer` with `send_to`, `broadcast`, `disconnect` and the pending requests.
--     `begin_request` is `request` up to its wait, `time_out` its end by timeout, `receive_response`
--     the arrival of an answer.
--   Acp.Percent, Acp.Handshake: `percent_decode`, `extract_api_key_from_request`, and the handshake
--     and registration at the start of `handle_connection`.
--   Acp.Client: crates/cca-acp/src/client.rs. `run` of its child Events takes the events
--     that a client meets: what its connection manager does from one wait to the next, and the calls
--     beside it.
--   Acp.Handler: `DefaultHandler`. Acp.Session: `handle_authenticate` and the loop of
--     `handle_connection`, over the list of frames that arrive.
--   Rl.State, Rl.Experience, Rl.QLearning, Rl.Engine: the files of crates/cca-rl/src.
--   Rl.Service: crates/cca-daemon/src/rl.rs.
--   Tokens: crates/cca-daemon/src/tokens.rs, `TokenCounter`, `prune_history` and `TokenMetrics` (whose
--     `record` is `record_usage` here). Its children Lines (the methods of `str`), Compressor
--     (`summarize`, `deduplicate`, `compress_code`), Analyzer (`ContextAnalyzer`) and Service
--     (`TokenService`, `get_recommendations`) are the rest of that file.
--   Gate: crates/cca-daemon/src/auth.rs, the middlewares in front of the HTTP API.
--   Orchestrator: the state of crates/cca-daemon/src/orchestrator.rs. Its children Selection
--     (`find_best_agent_heuristic`, `find_best_agent_rl`), Routing (`route_task`, `route_task_auto`),
--     Delegation (`delegate_to_specialists`), Outcomes and Results (`process_result`), Aggregation
--     (`try_aggregate_result`, `aggregate_results`) and Announcing (`broadcast`) are its methods; the
--     other children prove what they are named for.
--   Daemon: crates/cca-daemon/src/daemon.rs. Daemon.Cleanup is a round of `task_cleanup_job`,
--     Daemon.Sanitizer `sanitize_broadcast_message`, Daemon.Extraction `extract_json_from_output`,
--     and Daemon.Delegations the data and, in its child Execution, `execute_delegations` with
--     `find_available_agent_excluding`.
--   Agents: crates/cca-daemon/src/agent_manager.rs, the table of agents and its logs; its
--     child Manager has the methods of `AgentManager`, History the specification of the logs, and
--     Refinement the proof that they implement it.
--   Config: crates/cca-daemon/src/config.rs, the permissions and the reloadable configuration, with
--     `apply_permissions_to_command` of agent_manager.rs and `reload_config` of daemon.rs.
--   Validation: crates/cca-daemon/src/validation.rs.
--   Mcp: crates/cca-mcp/src. Mcp.Server is `McpServer` (server.rs), Mcp.Tools `ToolRegistry` with its
--     `call_*` methods in the child Calls (tools.rs), Mcp.Client `DaemonClient` (client.rs).
--   Indexing: `run_indexing_job` of crates/cca-daemon/src/indexing.rs.
--   Common: names passed on from the libraries, Boolean tests, lists, maps, machine words, results
--     with panics, and the interface of floats. Tests: concrete runs, on the services of
--     Tests.Fixtures.
-- The orchestrator calls the ACP server that is modelled (its state holds one) and the service of the
-- learner; the session changes the server's table of connections through the handler. The
-- delegations of the daemon use the server, the orchestrator and the usage table that are modelled.
--
-- Conventions. Identifiers are numbers and their printing a parameter. A hash map is an association
-- list whose order stands for the iteration order of the map. u32 and u64 wrap around as in the
-- release profile. A float is any type with the operations of `F64`, of which no law is assumed.
-- JSON, the bounded channels, UUIDs, Redis, PostgreSQL and the random draws are parameters: the
-- records `Env`, `Services`, `Draws` and `Json`; so are the rate limiters of the crate governor and the
-- HTTP client. The one law assumed of them is that of `ct_eq`, that it compares slices of one
-- length. Texts that are taken apart are lists of code points. Loops are recursion on lists, so
-- that no fuel is needed; the loop of the client, which has no end, is a list of events. Other
-- tasks that run at the same time are functions on the state where a call waits: `meanwhile` and
-- `waiting` of Daemon.Delegations.
--
-- Not modelled: sockets, processes, terminals and tmux, the write tasks and the shutdown of the server;
-- the handlers of the HTTP API but those above, the loading of the configuration, storage, metrics and
-- the parsers of the daemon; the command line. Locks are held for one call each, and a call is taken as
-- one step.
pub mod Common
pub mod Core
pub mod Daemon
pub mod Agents
pub mod Config
pub mod Validation
pub mod Indexing
pub mod Mcp
pub mod Acp
pub mod Rl
pub mod Orchestrator
pub mod Tokens
pub mod Gate
pub mod Tests
