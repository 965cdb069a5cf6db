-- ===== src/Lib.antt =====
-- Bantu-OS in Python (bantu_os/): sessions, processes, users, API keys, goals, tool calls, knowledge,
-- tasks, services and the socket server. The parts call each other through objects that the server
-- hands around: a connection's requests go to the session manager, a session runs a kernel under a
-- budget, the intent kernel walks the tree that the planner made and asks the
-- confirmation gate and the retry engine on the way, and the API checks a key and a rate before it
-- passes a request on. Each part keeps its own state, so each is a module of its own here:
--
--   Session     bantu_os/core/session_manager.py: TokenBudget (Budget), ToolPermissions (Permissions),
--               UserSession.run, SessionManager (Manager) and its listing (Listing)
--   Scheduler   bantu_os/core/scheduler.py: Scheduler and Process
--   Auth        bantu_os/auth/user_store.py and password.py: UserStore; Names is the normal form of
--               a name, Steps the relation of all operations, Reload the file read back
--   Api         bantu_os/api/rate_limiter.py (RateLimiter) and api_key_store.py (KeyStore)
--   Intent      bantu_os/core/intent/: goal_tree.py and retry_engine.py (Tree; Saved for a tree as
--               a JSON object), confirmation_gate.py (Gate), goal_planner.py (Planner, with
--               `decompose` in Planner.Decompose),
--               intent_kernel.py (Leaf for one run of a leaf, Walk for `_walk`, Receive for
--               `receive_streaming`)
--   Kernel      bantu_os/core/kernel/kernel.py: `_parse_tool_calls` (Parse), `run_tool_calls` and
--               `agentic_loop` (Tools); core/kernel/services.py: ServiceManager (Services), its
--               health checks (Services.Health), its monitor (Services.Monitor) and its
--               table of services (Services.Discover)
--   Memory      bantu_os/memory/: knowledge_graph.py (Graph, with `traverse` in
--               Graph.Traverse) and vector_db.py (Vectors)
--   Ai          bantu_os/ai/engine.py: the calls in an answer (Calls) and AIEngine (Engine)
--   Agents      bantu_os/agents/task_manager.py (Tasks)
--   Services    bantu_os/services/: supervisor.py (Supervisor; Supervisor.Restarts for its
--               monitor), the commands of service_manager.py on it (Admin), scheduler_service.py
--               (Schedule), sandboxed_file_service.py (Sandbox), process_service.py (Process), the
--               M-Pesa part of fintech/fintech_service.py (Mpesa), and iot/__init__.py: the
--               registry and the sensor store (Iot.Devices), the MQTT client (Iot.Client), the
--               tools (Iot.Tools)
--   Server      bantu_os/core/socket_server.py: the lines of a connection (Framing), its state
--               (State), the commands of ShellProtocol on the session manager of Session (Process),
--               `_execute_tool` (Tools) and `_resolve_confirmation` (Process.Confirm)
--   Prelude     what these share: texts, dicts in insertion order, tests, results, decimals
--
-- A method is a function from its arguments and the object's state to its result and the new state.
-- A Python exception is a value: of `Result`, or `none` where the code has no other use of it. What
-- the clock and `secrets` return, and what digests, JSON readers, models, tools, resolvers, service
-- objects, hooks, paho-mqtt and numpy do, are arguments. Times are natural numbers of milliseconds
-- (of microseconds in Services.Schedule). A text is the list of its code points; lower case, white
-- space and stripping are those of ASCII. Dicts keep the order of insertion.
--
-- Bounds: three attempts at a leaf (Intent.Walk.attempts) are enough because the third failure
-- is never retried; the loop over a connection's buffer (Server.Framing.drain) takes as many
-- rounds as there are bytes, since each takes one at least; the search for tool calls
-- (Kernel.Parse.parse_tool_calls) takes the length of the text plus one, since each round leaves
-- a shorter text; the poll for an M-Pesa payment (Services.Mpesa.poll) takes 31 rounds, since
-- each sleeps for two of the 60 seconds; the endless health monitor (Kernel.Services.Monitor) is
-- run for any number of rounds, that of the supervisor (Services.Supervisor.Restarts) for any
-- times; the traversal of the graph (Memory.Graph.Traverse) takes as many rounds as the index
-- has entries plus two, since each takes one from the queue and each of these but the first
-- comes from the index; the agentic loop and the AI engine have their own number of rounds. All
-- else is by recursion on the data.
--
-- Not modelled: files but for what a store reads back and what a file system, as a parameter, is
-- asked to do; sockets and HTTP; the parsing and printing of JSON; the execution monitor's times
-- and those of marks and retries in the walk; the fields of a plan that ask for clarification;
-- the directory that a session's sandbox makes; the agents but for their tasks; Stripe,
-- Flutterwave and Paystack, and the other services under bantu_os/services/, which mostly pass
-- requests on to other programs.
pub mod Prelude
pub mod Session
pub mod Scheduler
pub mod Auth
pub mod Api
pub mod Intent
pub mod Memory
pub mod Agents
pub mod Ai
pub mod Services
pub mod Kernel
pub mod Server
