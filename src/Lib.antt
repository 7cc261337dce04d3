-- ===== src/Lib.antt =====
-- A verification library for the AutoOS AI infrastructure (auto-ai).
--
-- The repository is a Rust workspace: a daemon (crates/auto-ai-daemon) that arbitrates concurrency,
-- routes requests to providers by tier and parses their event streams; an agent crate
-- (crates/auto-ai-agent, whose library is rust-ref/src) with a conversation memory, compaction and
-- an orchestration layer that runs flows of agents; the wire and configuration types that they
-- share (crates/ai-config/rust-ref/src); a client and command-line programs. The Rust under the
-- rust/ folders is transpiled from the .at sources and mirrors the same code.
--
-- Common: the shared vocabulary. Lists are `Vec` and slices, HashMap is `HashMap` (an association
--   list whose order stands for the unspecified order of iteration), BTreeSet a sorted list, Words
--   the wrapping of u32 and u64, Format `format!` and `join`, Chars the text functions over code
--   points, Text those over texts, Results `Result` and `?`. A number is a natural; an addition on
--   a machine word wraps at its width where the source may reach it.
-- Orchestration (rust-ref/src/orchestration): Flow is flow.rs, Budget budget.rs, Handoff
--   handoff.rs, Pipeline pipeline.rs, Driver driver.rs. The engine is a record with the fields of
--   the struct `PipelineEngine`; each method is a function to the new engine and the result, `none`
--   being a panic (an index out of bounds), and takes the time where the source reads the clock.
--   The driver's loop takes a number of rounds as fuel; `enough_rounds` of the flow is enough. The
--   application (agent factory, agents, gate handler, clock) is a parameter of the driver. Log
--   lines are left out. f64 products in the budget are computed exactly as a double would round
--   them.
-- Agent (crates/auto-ai-agent/rust-ref/src): Memory is memory.rs, whose loop has the number of
--   messages as fuel, Compaction compaction.rs, and Repair what agent.rs does to calls that were
--   left without a result. Run is the loop of agent.rs, `run_inner`: Request its requests with
--   compaction and the retry after an overflow, Batch the calls of one answer with the cycle guard,
--   Loop the turns, which are counted down from `hard_limit`, so that no fuel is needed. The model,
--   the tools, the cancel flag and the queues are functions of a world, which each of them may
--   change. Tools is tool.rs and error.rs, Role the trait of role_def.rs as a record. RoleConfig is
--   config/role_config.rs; what it uses of the crates auto_val and auto_atom is the interface
--   `AutoVal` with the laws `AutoValLaws`, and the library of built-in roles is a parameter. Skill
--   is skill.rs; a directory is the entries that reading it yields, and `none` a panic. A JSON
--   value is of a type given as a parameter, with its text and its text fields; so are the client
--   that answers the summary request, and Unicode's lower case.
-- Config (crates/ai-config/rust-ref/src): Wire is wire.rs, Tier tier.rs, Provider the
--   records of provider.rs and loader.rs, Validate the check of a model of validate.rs, which the
--   agent's Validate applies to a role.
-- Daemon (crates/auto-ai-daemon/src): Sse is sse.rs, over bytes; Utf8 is what it uses of
--   `String::from_utf8`. The parser's loop has the length of its buffer as fuel. TierRouter is
--   tier_router.rs, Tracker tracker.rs. Pool is pool.rs over tokio's semaphore, an interface of
--   operations and of the laws its documentation states; a call is modelled from the state in which
--   it no longer waits, and a history is a sequence of guards taken and dropped. Errors is the
--   error type of lib.rs. Server is server.rs: Route chooses the candidates of a request and
--   Attempts tries them; the providers are parameters that answer as their world tells, and the
--   attempts end with the list of candidates. Registry is the registry of provider/mod.rs, over the
--   environment as a parameter. Anthropic is provider/anthropic.rs, and the thinking levels of
--   provider/mod.rs; JSON is read and written through interfaces to serde_json, a stream is the
--   list of what its rounds receive, and sending a request gives its result as a parameter.
--
-- The orchestration layer drives agents and accounts for their tokens; an agent keeps its history
-- in the memory and compacts it; the daemon serves the completion requests, for which it resolves a
-- tier by the router, takes a permit of the pool, and reads the provider's stream through the
-- parser.
--
-- Not modelled: the built-in roles, which are prompts, and the sidecar files of roles.rs; the
-- parser of .at files, which stands on crates outside the repository, with the reading of the
-- configuration files by loader.rs; the other providers; of the server the frames of the stream
-- channel, the status pages and the service endpoints; the client's HTTP calls; the command-line
-- programs; and the Rust under rust/, which is transpiled from the .at sources.
pub mod Common
pub mod Orchestration
pub mod Daemon
pub mod Config
pub mod Agent
