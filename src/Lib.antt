-- ===== src/Lib.antt =====
-- Verification of entheai, a coding agent in Rust: the parts that decide, count and encode, each
-- translated from its source file. A child of a part's module has the theorems on that part; Base
-- has what they share, and Examples applies the theorems to concrete inputs. Paths are from the
-- repository's root.
--
-- - Permission: the tool policy of crates/permission/src/lib.rs. Every tool call of an agent asks
--   `decide_tiered` first. A `HashSet` or `HashMap` is a list.
-- - Pool, Pool.Tasks: crates/orchestrator/src/pool.rs, the workers that a fan-out starts. `Pool` has
--   the methods of `WorkerPool`; a lock's section is one function. `Pool.Tasks` has the
--   task that `spawn` starts, as a step relation: callers and tasks take steps in any order.
-- - Repair: crates/orchestrator/src/repair_stop.rs, the ledger that ends a repair loop. Scores are
--   numbers of `Base.Float.F64`, a parameter for the machine's `f64` with the facts that are used.
--   `RepairLedger::record` is `record_attempt`.
-- - BaseCache: crates/federation/src/base_cache.rs, the cache of repositories that federated workers
--   start from. The disk is the list of valid repositories; whether the object store and git succeed
--   is an argument of each call. Calls run one after another; BaseCache.Races has the steps of two
--   calls between the locks that they take.
-- - Worktree: crates/orchestrator/src/worktree.rs, the worktrees and branches of a fan-out. Git is a
--   parameter: a state, and what a command does to it and answers. An error is `none`, its text left
--   out. `WorktreePool::create` is `create`, `WorktreeGuard::create` is `guard_create`,
--   `WorktreeGuard::new` is `guard`.
-- - Oracle: crates/orchestrator/src/oracle.rs, the verdicts on a phase, the gate, and the reading of
--   the adjudicator's reply (Oracle.Reply), where a slice out of order panics.
-- - Fanout: crates/orchestrator/src/lib.rs, the fan-out over Worktree, Oracle and the events of Bus.
--   Decompose has `parse_decomposition` and `ensure_coder`, Policy the coders' policy, Verify
--   `verify_worktree` and `MergeSeal`, Settle step 4 of `run_fanout_detailed` and Run the whole
--   from the choice of the session to the drop of the guard, on every exit; Report has the status of
--   an outcome in `format_v2_report`. The host (git, the
--   shell, SHA-256, the coders until the last is joined, an oracle) is a parameter on one state.
-- - Mcp: crates/mcp/src/lib.rs, `read_capped_line` on a stream in chunks, and `reader_loop`, which
--   routes answers to requests, and in Mcp.Requests `request` and the reader in any order. The reading
--   of bytes as a text and the parser of JSON are parameters.
-- - Current: crates/current/src/lib.rs, the daily budgets, the pulse that spends them, and the civil
--   date. What the sources answer is given with the pulse.
-- - Router: crates/router/src/lib.rs, and the providers that crates/config/src/lib.rs injects. The
--   environment is a test of its variables.
-- - Launcher: `merge_shader_block` of crates/launcher/src/lib.rs, where a slice out of order panics.
-- - Swarm, Bus: crates/viz/src/model.rs, the state that a view shows of a fan-out, as a fold of its
--   events; FanoutEvent of crates/orchestrator/src/lib.rs and its wire form of
--   crates/bus/src/event.rs. `SwarmModel::done` is `finish`, `running` is `running_count` and
--   `failed` is `failed_count`.
-- - Pomodoro, Progression: crates/viz/src/pomodoro.rs and crates/tui/src/progression.rs, the timer,
--   and the levels and badges of the terminal interface.
-- - Ternary: crates/ternary/src/codes.rs and crates/ultragraph/src/pack.rs, two packings of ternary
--   weights.
-- - Ugm: crates/ultragraph/src/ugm.rs, the reader of a packed module. A slice out of range panics,
--   and a `usize` has 64 bits.
-- - Vault: crates/obsidian/src/writer.rs, the writer of generated notes. Paths are read as on Unix;
--   the disk is a list of files by location, and which writes and removals succeed is a parameter.
-- - Tools: `resolve_in_root` of crates/tools/src/fs.rs, the check of every path that a file tool is
--   given. What exists and what a link resolves to is a parameter. Tools.Edit has the tools
--   `read_file`, `write_file` and `edit_file` of that file, over a disk that is a parameter;
--   Tools.Shell the reading of a command's pipes and its answer in crates/tools/src/shell.rs, where
--   what is ready next is a list; Tools.Search the hits of crates/tools/src/search.rs over the files
--   that the walk gives. `RunShell::call` is `run_shell`.
-- - Agent: crates/core/src/event_bridge.rs, a run of the agent on the stream of events that adk-rust
--   gives, with what it tells the interface, the memory and the processor. The values of JSON are a
--   parameter. Agent.Adapter has crates/core/src/adk_tool_adapter.rs, a tool call under the policy of
--   Permission. A child has what the answer, the evidence, the events and the effects are.
-- - MemoryPp: crates/memory-pp/src. Cap has the cut of a text to a number of bytes; Raw.Tables the
--   store of raw_store.rs, its two tables as lists, with the calls that fail between two statements;
--   what the full-text index finds and the digest are parameters. Frozen has the nodes, triggers and
--   ranks of frozen.rs over numbers that stand for `f32`, NaN too; Mesh the sidecar's ranking in
--   mesh.rs; Processor the retrieval, ingest and thaw of processor.rs over these. The processor
--   is given the transcript of Agent, which Agent.Ingested shows.
--
-- Machine integers wrap as in a release build where the source adds or multiplies, and are plain
-- numbers where the source only compares and stores. `evict_over_cap` takes as fuel the number of
-- bases in the order, which is enough because each round takes one out; `reader_loop` has fuel
-- above the number of bytes of the stream, which is enough because each line takes one at least;
-- `digits` has the number itself. No other function needs fuel. A text is a list of code points
-- where the source looks into it.
--
-- Not modelled: how agents are built and prompted, processes, network and files, the rest of the
-- fan-out's report, the memory store, the native mesh and the checkpoints' files, the reading of
-- the configuration, drawing, audio, and floating-point inference.
pub mod Agent
pub mod Base
pub mod BaseCache
pub mod Bus
pub mod Current
pub mod Examples
pub mod Fanout
pub mod Launcher
pub mod Mcp
pub mod MemoryPp
pub mod Oracle
pub mod Permission
pub mod Pomodoro
pub mod Pool
pub mod Progression
pub mod Repair
pub mod Router
pub mod Swarm
pub mod Ternary
pub mod Tools
pub mod Ugm
pub mod Vault
pub mod Worktree
