-- ===== src/Lib.antt =====
-- Models of the packages of this repository, which extend the Discord framework seyfert.
--
-- packages/proxy stands between the REST calls of bots and Discord. A request is deduplicated
-- (src/deduplication.ts), put into the context of its token (src/contexts.ts), and admitted,
-- queued and dispatched by the scheduler (src/scheduler.ts) under the sliding windows of its
-- context and of the invalid requests (src/gates.ts). packages/cooldown limits the uses of
-- commands by buckets in a cache, which may be Redis. packages/queues runs jobs with retries, in
-- memory or over BullMQ. packages/scheduler runs tasks at times, packages/scaler places the shards
-- of a bot on machines, and the other packages are adapters, instrumentation, lint rules and a
-- mock for tests.
--
-- Prelude holds what the models share: Tests the Boolean tests on numbers and the case lemmas,
-- Lists the lists measured in native numbers, Maps the association lists that stand for maps.
--
-- Proxy.Gate is packages/proxy/src/gates.ts: SlidingWindow, with a function for each method; a
-- method that prunes answers the window too. Gate.View has the recorded times that a window
-- still counts, Gate.Log a log of all recorded times beside it, Gate.Delay the lemmas on the
-- delay. Proxy.Scheduler is packages/proxy/src/scheduler.ts: RequestScheduler, with its maps as
-- lists, its gates as a function of the key of a context, and what it emits or calls back as the
-- list `out`, the latest first. Scheduler.Operations has the remaining methods and the machine
-- `step`, in which the environment orders calls, timers, aborts and ends of requests. Induction
-- carries a property of dispatches through the pump; Capacity, Settle, Order, Rate and Progress
-- have the lemmas for the results below. The inner loop of `pump` recurs on the list of entries;
-- the outer one on fuel, the number of entries that wait: a round that is followed by another
-- takes one of them out, so this is enough. Proxy.Deduplication is RequestDeduplicator of
-- packages/proxy/src/deduplication.ts; a promise is the number of the claim that made it.
-- Bounds, InFlight with Claims and Steps, and Keys have its lemmas. A call of `complete` or
-- `abort` names its claim, and finds the key that the closure holds. The digits of a number, in
-- a key, are a parameter. Proxy.Contexts is RestContextManager of
-- packages/proxy/src/contexts.ts, with the fingerprint of a token as a parameter;
-- Contexts.Operations has the end of a creation, and the machine `step` in which calls and ends
-- of creations come in any order. Flags, Bounds and Owners have its lemmas. Proxy.Body is
-- readRequestBody and BufferedBytesBudget of packages/proxy/src/internal.ts, and Limits its
-- lemmas. Proxy.Protocol is packages/proxy/src/protocol.ts: the values of JSON, the envelopes of
-- responses and, in Protocol.Wire, the requests. A check of a field and its reading are one
-- function, which answers `none` where the source returns nothing. Trips and Requests have the
-- lemmas.
--
-- Cooldown is packages/cooldown. Cooldown.Numbers has what a number of a stored record may be: a
-- natural number, a negative integer, or no integer at all. Cooldown.Resource is src/resource.ts
-- over a cache, a parameter with the laws of a map. Cooldown.Bucket has the check and the
-- consumption of src/manager.ts by reads and writes, Cooldown.Script the Lua script of the same
-- file, Cooldown.Key the keys (a text is a list of its UTF-8 bytes), Cooldown.Commands the way
-- from a command to its bucket, and Cooldown.Manager the methods check, consume and reset. What
-- seyfert answers (the command of a name, the context, the functions that resolve a target) is the
-- record Environment, and how the Lua of Redis prints a number is the parameter `printed`.
--
-- Queues.Retry is resolveRetryDelayValue of packages/queues/src/helpers.ts, Queues.Memory the
-- class MemoryQueue of src/memory.ts. Memory.Operations has its calls and the end of a run, and
-- the machine `step` of calls, timers and ends of runs. generateJobId makes 1000 attempts, as the
-- source does, and its failure is an answer of `add`. Ids, Limits and Ready have its lemmas.
--
-- Scaler.Placement is packages/scaler/src/placement.ts, with both strategies. What localeCompare
-- answers is a parameter. Loads are compared as exact fractions, which the numbers of the source
-- do too for hosts of fewer than 2^26 places. Made has what a plan has passed, Distinct the ids of
-- hosts, and Cover, Enough and Bounds the lemmas.
--
-- Scheduler is packages/scheduler: Task is src/task.ts with the objects of tasks as a store,
-- Driver the driver of src/drivers/memory.ts, and Registry the class of src/manager.ts over that
-- driver, with a machine `step` of calls, firings of jobs, microtasks and ends of runs. What
-- `resume`, `pause` and `remove` do after their `await` is a step of its own, in the order in
-- which they began to wait. Which definitions the library croner accepts is a parameter, and
-- when its jobs fire is the environment. Bindings, Tallies, Views, Moves, Agree and Runs have
-- the lemmas.
--
-- Scaler.Master is ScalerMaster of packages/scaler/src/master.ts. Its connections are objects in a
-- store. Master has the state, Identify the buckets of requests to identify, Agents the messages of
-- agents, Calls the calls of the user and the life of a connection, Operations the machine `step`. A
-- wait for a connection ends in an action of its own, and which connections are open is an argument.
-- Kept, Requests, Grants, Waiting and Gone have the lemmas.
--
-- Times are natural numbers of milliseconds, and one time is read in each synchronous turn, where
-- the source may read the clock more than once. Not modelled: intervals with a fraction, limits of
-- gates that are not natural numbers, the queue of pending mutations and the set of members that
-- the cooldown script keeps, listeners that call back into a queue, and a processor that throws
-- before it first waits is taken to settle in a later turn. Sockets, processes, HTTP, files,
-- BullMQ, Redis and seyfert itself are not part of the sources that are modelled.
pub mod Prelude
pub mod Cooldown
pub mod Proxy
pub mod Queues
pub mod Scaler
pub mod Scheduler
