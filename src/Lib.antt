-- ===== src/Lib.antt =====
-- Neuralgentics: the orchestration hub for coding agents. Three Go packages are modelled here.
--
-- Orchestrator (packages/orchestrator-go/src/neuralgentics/orchestrator) turns a plan into groups of
-- tasks that can run in parallel, chooses an agent for each task, and guards the files that the
-- agents write.
--   Orchestrator/Types        types.go: task types, agents, statuses, locks, tasks
--   Orchestrator/Status       TaskStateTransitions, CanTransition, IsTerminal; Runs: the runs of the
--                             state machine as an indexed data type
--   Orchestrator/Routing      routing.go, and RouteAgentToTaskType of task_runner.go
--   Orchestrator/Locks        FileOwnershipRegistry; Laws: each method on every branch; Traces:
--                             sequences of calls by several tasks
--   Orchestrator/Graph        GetParallelGroups; its state is the two maps that the closure
--                             computeDepth shares. Depth: the depth of a task as a relation; Frame:
--                             what a call leaves as it was; Fuel, Groups, Order, Cycles: its result;
--                             Distinct: tasks with different ids
--   Orchestrator/Sorting      TopologicalSort; Weights: counting edges; Building, Origins: the
--                             first loop; Release: the inner loop; Drain: the main loop; Sorted: the
--                             result; Complete: when there is one
--   Orchestrator/Ready        FindReadyTasks, FindBlockedTasks
--   Orchestrator/Validation   ValidateDependencyGraph, which calls GetParallelGroups; Errors: each
--                             check; Verdict: the result as a whole
--   Orchestrator/Runner       TaskRunner: tasksToEntries, entryToTask, one entry's run; Pool: the
--                             worker pool of dispatchGroup as a step relation; Invariant, Results:
--                             what its runs leave; Dispatch: dispatchGroup and Dispatch as a machine of
--                             steps; Ends: how its runs end; Coders: its agents
--   Orchestrator/Protocol     protocol.go: the steps of the protocol for each task; Strict: every
--                             order of calls on a strict machine; Cycle: one whole run, and a waiver
--   Orchestrator/Skills       skills/: parsing, loading, registry; Sections: what is parsed
--   Orchestrator/Context      context_builder.go: the context package; Tables: what the task type
--                             determines; Prompts: the seed prompt; Laws: its bounds
--   Orchestrator/Improve      improve.go: the improvement phase and its budget
--   Orchestrator/Tasks        orchestrator.go: HandleTask, CompleteTaskCycle, execution plans;
--                             Handling: what they leave and return
--
-- Broker (packages/broker-go/src/neuralgentics/broker) keeps the servers that agents may call.
--   Broker/Access             access/access.go: the permission matrix; Decisions: reads; Changes:
--                             Grant and Revoke
--   Broker/Transport          types/types.go: configurations and ToServerConfig
--   Broker/Registry           registry/registry.go: a heap of entries with a map from names to
--                             pointers; Laws: its invariant and operations; Capabilities:
--                             InferCapabilities
--   Broker/Launcher           launcher/launcher.go: building, starting and stopping processes
--   Broker/Proxy              proxy/proxy.go: the requests and readers of the shared stdio proxy;
--                             Laws: its states under every order of steps
--   Broker/Intent             intent/matcher.go: Words: tokens and stems; Scores: the order and the
--                             range of the scores; Ranking: the sort and the match
--   Broker/SkillCache         catalog/skill_cache.go: the cache of skill bodies; Laws: its limits; Calls:
--                             every order of calls; Reads: what a reader gets
--   Broker/SkillTags          catalog/skills.go: tags, the role filter and the catalog; Merged: the merged
--                             tags
--   Broker/Core               broker.go: the broker over the parts above; Laws: what a start leaves
--                             alone; Activation: the transports tried in turn, with Attempts and
--                             Fallback; Calls:
--                             calls and audit records; Curated: catalog/curated.go and the catalog
--                             methods, with Discovery; Matching: MatchIntent
--
-- Memory (packages/memory/src/neuralgentics/memory).
--   Memory/Cache              tiered/cache.go: the cache of summaries; Laws: what readers see
--   Memory/Loader             tiered/loader.go: the summaries of two tiers and the extraction of
--                             memories; Laws: what a call leaves to the next
--   Memory/Entries            the fields of a memory and the writes that the engines make
--   Memory/Trust              trust/engine.go; Laws: what a signal does
--   Memory/Decay              decay/engine.go; Laws: what one decay writes; Consolidation:
--                             decay/consolidate.go, with Merges: its writes, Counts: its numbers,
--                             Runs: a whole run, Archived: a memory that is archived early
--   Memory/Chunker            index/chunker.go: a file split into chunks of lines; Text: the library
--                             functions on texts that it uses; Windows, Boundaries, Files: what the
--                             chunks cover
--   Memory/Index              index/tracker.go and index/indexer.go; Settling: the tracker after a run;
--                             Again: a second run; Walk: the walk over a directory, with Collected:
--                             the files that it collects
--   Memory/Traversal          graph/traversal.go: the search for a path between two memories; Paths,
--                             Visits, Levels: one memory, one level; Shortest: the search
--
-- Conventions. A Go map is an association list, whose order stands for the order of a `range`
-- (Prelude/Maps). A string type with constants is a data type with a case for every other string, or
-- a string where the code compares only texts. An error is a value: `none`, or a case with the
-- values that its message shows. A method under a mutex is one step; the two critical sections of
-- SummaryCache.Get are two. Clock readings are arguments. The store is explicit where callers keep
-- pointers (Broker/Registry) and state is passed on elsewhere. Where a range over a map decides an order, as for
-- the roots of TopologicalSort, one order is modelled, that of the list. `Advance` changes the
-- state of a task after it has released the mutex: two calls for one task at the same time are
-- not modelled.
--
-- Fuel. compute_depth gets one call more than there are task ids: every nested call marks a task of
-- the map, so there are no more. The main loop of TopologicalSort gets one round more than there are
-- in-degrees: no id is queued twice. The loops of the chunker get one round per line: each moves on
-- by one line at least. The search for a path is bounded by its levels and by the length of its
-- queue, as in the source, and needs no fuel.
--
-- Parameters. The dispatch callback, the context builder of the task runner, the context's
-- error, exec.LookPath and the relationships in the store are arguments of the definitions that
-- use them; so are the operating system (Broker/Launcher.Machine), the servers
-- (Broker/Proxy.Peer, Broker/Core.World), the tables of the package unicode
-- (Broker/Intent/Words.Alphabet), the memory behind the orchestrator and the encoding of its
-- documents (Orchestrator/Context.MemoryProvider, Codec), the directory of skills
-- (Orchestrator/Skills.FileSystem), the disk of the skill cache (Broker/SkillCache.Disk), the
-- store and the language model (Memory/Loader.Store, Prompt; Memory/Entries.Store), the disk and
-- the store of the indexer (Memory/Index.Disk, Store), the exponential function and the
-- similarity of memories (Memory/Decay, Memory/Decay/Consolidation). Nothing is assumed of them
-- but that the exponential of a number that is not positive is at most 1. While the broker performs one operation, no goroutine that
-- waits for a process or a pipe runs between its steps: those are the operations
-- clear_after_exit and pipe_closed.
--
-- Not modelled: numbers are unbounded, as no count here comes near 2^63; formatted texts of errors;
-- database queries, network clients and rounding of floating-point scores.
pub mod Prelude
pub mod Orchestrator
pub mod Broker
pub mod Memory
