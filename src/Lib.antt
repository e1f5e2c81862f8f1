-- ===== src/Lib.antt =====
-- ZEN MA2 Agent plans changes of a grandMA2 show from requests, shows each plan for approval, and
-- sends its commands to the console once it is approved. This library models the parts that decide
-- what may run, and those that other programs talk to.
--
-- Agent (zen_ma2_agent/core.py, with runtime.py, skill_system.py and show_program.py): `AgentCore`
-- keeps the registry of actions. Queue holds `queue_workflow` (`_queue_workflow`), `queue_request`
-- (the end of `handle_request`), `queue_root` (the end of `program_show_request`) and
-- `cancel_action`. Context holds what `compose_show_program_child` writes into a root plan and
-- `_effective_execution_context` reads back. Approve holds `approve_action`: `gates` is every
-- check before anything is done, `run_action` the rest, `perform` the body of its `try`.
-- Lifecycle, Preserve, Gates, Steps, Sent and Composition prove; Steps has the calls as a step
-- relation and its closure. What a special kind of action does on the console, and the console
-- itself, whose response to a command may depend on the commands sent before, are the operations
-- of the record `Console`; `json.dumps` and `sha256` are operations of `Registry`.
--
-- Workflow (zen_ma2_agent/workflow.py, models.py): plans, their commands, and the merge of a child
-- plan, which Context uses. State (zen_ma2_agent/state): the cache of what was read from the show,
-- which a load of a show in Approve marks stale.
--
-- Bridge (zen_ma2_agent/ma_bridge): Protocol parses and formats lines (protocol.py), Dispatch is
-- the deduplicator and the dispatcher (server.py), Cache the bounded caches, Retransmission and
-- Bounds what a client may rely on. Sockets and threads are left out; the lock of `dispatch` makes
-- it one step.
--
-- Allocation (zen_ma2_agent/allocation.py, protected_objects.py): the first free number of a pool.
-- Workers (zen_ma2_agent/remote_workers.py): the registry of workers and the choice of one;
-- Workers/Health (zen_ma2_agent/worker_health.py) is what a probe writes into that registry, its
-- two HTTP replies being arguments, which tell the exceptions that the probe catches from the
-- others; Health/Replies and Health/Laws prove. Watchdog (zen_ma2_agent/watchdog.py): the monitor
-- of components; it shares `ComponentState` with Workers.
--
-- Operator (zen_ma2_agent/operator_api.py): Status is the snapshot that the status tools show and
-- the dictionaries of its `to_dict` methods; Payload the checks on arguments; Invoke
-- `OpenClawOperatorAdapter.invoke`, one function per tool, over the state of whoever owns the
-- handlers and the providers, all of which may write it; Envelope, Tools, Answers, ReadOnly and
-- Authority prove. Authority also connects the approval tool to `AgentCore.approve_action`, as
-- zen_ma2_agent/field_host.py does.
--
-- Llm (zen_ma2_agent/llm/router.py): Slots is `ProviderSlot`, Config `_read_private_env` and
-- `load_provider_slots`, Router the construction of `ProviderRouter`, `candidates` and
-- `pool_readiness`, Complete `complete_with_diagnostics`, Parallel
-- `complete_parallel_with_diagnostics`. Order, Secrets, Fallback, Futures, Batches, Turn, Turns,
-- Answers, Schedules, Loaded, Numbers and Stage prove. The adapter that sends a request is a
-- parameter: a function on a world in Complete, and in Parallel, where a slot is asked at most
-- once, the reply of each slot with the order in which the requests of a batch complete. What
-- Python's `str.upper`, `casefold`, `int` and `float` give are operations of `Builtins`.
--
-- Cue (zen_ma2_agent/cue_content_verifier.py): Rows reads the export of a sequence, Verify is
-- `verify_cue_content`, Fixtures, Index and Sound prove. Of a report the status, the numbers and
-- the reasons are kept; `str`, `isdigit`, `int` and `Decimal` are operations of `Reading`.
--
-- GroupOrder (zen_ma2_agent/group_order_builder.py): `GroupOrderSpec.create`, its commands and the
-- check of the readback.
--
-- Timecode (zen_ma2_agent/timecode_offset.py): `resolve_timecode_offset_spec` and `ma2_seconds`.
--
-- Json is the Python values that plans carry, and Prelude has lists, dictionaries in insertion
-- order, texts as code points, sorting, results and equality. The loops are structural recursion
-- on what they run through, and the loop over a range runs on the length of the range. Fuel is
-- used twice: the loop over the batches in Llm has a turn for each candidate, which is enough as a
-- turn asks at least one, and the decimal digits of a number run on that number, which has fewer
-- digits than it counts.
--
-- Not modelled: the planning of the skills, the HTTP adapter of the language models, the servers'
-- input and output, the artistic design modules and the scanners.
mod Prelude
pub mod Json
pub mod State
pub mod Workflow
pub mod Agent
pub mod Bridge
pub mod Allocation
pub mod Workers
pub mod Watchdog
pub mod Operator
pub mod Llm
pub mod Cue
pub mod GroupOrder
pub mod Timecode
