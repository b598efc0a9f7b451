-- ===== src/Lib.antt =====
-- Open Dynamic Workflow: a verified model of its runtime.
--
-- The program runs workflow scripts, which call agents. An agent call goes through the retry
-- orchestrator, which asks the run limit for each attempt and hands it to the scheduler; what the
-- workflow keeps between its steps is in the workflow context.
--
-- Base: shared helpers (tests on numbers, equality as an interface, lists, keyed maps, texts).
-- Agent: the data of types/agent.ts, types/errors.ts and types/scheduler.ts.
-- Scheduler: src/orchestration/scheduler.ts. `Scheduler.State` has the fields of `DefaultScheduler`
--   and those of its environment; `Scheduler` has one function per method (`schedule`, `abort`,
--   `drain`, `pump`, `checkDrain` as `check_drain`) and one for what follows the `await` of a run
--   (`finish`). `step` is one event: a method call, a `nextTick` callback, the end of a run or of a
--   timer; `run` is a sequence of them in any order, so each theorem about `run` covers every
--   interleaving. Payload fields of events that are copied from the task are left out. The loop of
--   `pump` is a recursion on the queue, which each round shortens.
-- RunLimits: src/workflow/run-limits.ts, the tracker of `maxAgentCalls`.
-- Retry: src/agents/. `Classifier` is attempt-classifier.ts, `Delay` retry-delay.ts, in units of
--   2⁻⁵³ ms; `State`, `Parts`, `Pass` and `Finish` are retry-orchestrator.ts. What one pass of the
--   loop meets from outside (the signal each time it is read, the attempt's outcome, the calls of
--   other agents, the random number, the clock) is a record `Surroundings`, and a call of `execute`
--   takes one for each attempt, so that the theorems cover whatever may happen. `loop` is a
--   recursion on the attempts that `maxAttempts` leaves. The files that the orchestrator writes and
--   copies, labels and metadata are left out, and so is the text of the schema feedback, which is
--   an input.
-- Context: src/context/. `Json` is json.ts: the values that a workflow may pass and their cloning.
--   `Operations` is operations.ts with errors.ts: a store is an object, that is a list of keys and
--   values, and an operation returns the store as it leaves it with its result or its error, so that
--   what a failed operation has changed can be stated. `traverse` with `isWrite` false is `traverse`,
--   with `isWrite` true it is part of `write_at`, which takes what is done with the object it finds.
--   Texts are lists of code units. Names that each object inherits are values that are no objects.
--   The order of keys that are array indices is left out. `Path` is path.ts, and `Runtime` the facade
--   of runtime.ts, whose methods take the active prefixes as an argument; the number of bytes of a
--   value's JSON text is a parameter.
-- Workflow: src/workflow/json.ts, the cloning of JSON values. A clone is a type of its own, whose objects
--   have a prototype: an own key `__proto__` sets it, and `as_value` is a clone that is cloned again.
-- Loop: src/loop/. `Data` has the types of types.ts and the checks of validate.ts on what a round
--   returns; `Rounds` and `Run` are `runLoop` of run.ts. What a round meets from outside (the signals
--   each time they are read, the callback as a function of its state, the calls that it made) is a
--   record `Meets`, one for each round. `run_rounds` is a recursion on the rounds that `maxRounds`
--   leaves. The event sink is a list of events. The copies of states that are made for files are
--   modelled, since they may throw; the files themselves and the cache markers are left out.
-- Config: src/config/. `Policies` and `Retry` are retry.ts: the policy of a run and of a call, in two
--   steps (`resolve_global_retry_policy`, `resolve_agent_retry_policy`) and by layers
--   (`resolve_layered_retry_policy`), where a field of the policy and its source are one cell.
--   `Aliases` is provider-aliases.ts after the validation of the raw definitions. `state` and `resolved`
--   are one map from names to marks; `resolve_alias` is a recursion on a fuel of one more than the
--   greatest depth, which the stack cannot pass. The hash of the digest is a parameter.
-- ExitCodes: src/errors/exit-codes.ts, on the codes as texts.
-- ToolLimiter: src/orchestration/tool-limiter.ts. A call that waits has a handle, which stands for
--   its promise and its release function; `run` is any sequence of calls, releases and aborts.
-- Pipeline: src/pipeline/. `Concurrency` is concurrency.ts, of limits that are natural numbers or infinite.
--   `Stages` is the run of a stage, stage-runner.ts with results.ts, and `Strategies` both strategies,
--   item-streaming.ts and stage-barrier.ts. What an item meets at a stage (what the signal reads, how
--   the race of the stage ends) is a record `Meets`, and the order in which the items complete is an
--   argument, so that the theorems cover whatever the limiters and fail-fast bring about. `Run` is
--   the choice of the strategy, the status and the counts of run.ts and summary.ts.
-- EventBus: src/orchestration/event-bus.ts. The chain of promises is the list of the events that
--   wait, and an event is handled in one step, with the subscribers that join meanwhile.
--
-- Not modelled: the command line, the output, the artifacts, the tools and the processes of the
--   providers, which are I/O of the platform; discovery, the sandbox of the scripts and the
--   validation of schemas, which work on the results of third-party parsers; the merging of
--   configurations, shared agents, and redaction.
mod Base
pub mod Agent
pub mod Scheduler
pub mod RunLimits
pub mod Retry
pub mod Context
pub mod Workflow
pub mod Config
pub mod Loop
pub mod ExitCodes
pub mod ToolLimiter
pub mod EventBus
pub mod Pipeline
