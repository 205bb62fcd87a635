-- ===== src/Lib.antt =====
-- A model of the verified node replication library, verified-node-replication/src: a data
-- structure is replicated on several nodes, updates go through a shared log, and each replica
-- executes the log in order. The library's own state machines are modelled, and what connects them.
--
--   Dispatch         lib.rs: the `Dispatch` trait (a parameter) and the labels of the operations.
--   AsyncSingleton   lib.rs, `AsynchronousSingleton`: the promise to a client, an atomic data
--                    structure.
--   Behavior         lib.rs: runs, and when a client cannot tell two of them apart.
--   SimpleLog        spec/simple_log.rs: one sequence of updates with a version.
--   Linearization    spec/linearization.rs: runs of the simple log against the atomic structure.
--   UnboundedLog     spec/unbounded_log.rs: the log, the replicas, the combiners and the requests.
--                    Steps has the transitions, Next the step relation with `add_ticket` and
--                    `consume_stub` of lib.rs, Inv the invariant, Preserve its preservation by
--                    every transition, Safety the assertions of the transitions.
--   LogRefinement    spec/unbounded_log_refines_simplelog.rs: the interpretation and the simulation,
--                    and Runs, which composes the two refinements.
--   RwLockSpec       spec/rwlock.rs: the distributed reader-writer lock.
--   FlatCombiner     spec/flat_combiner.rs: how the threads of a replica pass requests to the
--                    combiner.
--   CyclicBuffer     spec/cyclicbuffer.rs: the bounded log under the unbounded one, with the size
--                    `LOG_SIZE` of constants.rs.
--   NrLog            exec/log.rs, `find_min_local_version`: the search for the replica that is
--                    farthest behind.
--   Exec             the code as it runs, under exec/. Constants has constants.rs; RwLock exec/rwlock.rs,
--                    a step for each atomic access, with RwLock/System the threads, Refinement the
--                    simulation of RwLockSpec, Runs a thread alone; Log exec/log.rs, with Append and
--                    AdvanceHead; Context exec/context.rs; Replica exec/replica.rs, with
--                    Replica/Combine for combining and the two calls of a client; NodeReplicated
--                    exec/mod.rs, with Sequential the calls one after the other.
--   Counter          examples/counter.rs: the counter.
--   Prelude          what the others share: tests, lists and maps over the native numbers.
--   Tests            runs on a counter, a lock, a combiner and a buffer.
--
-- A transition is a partial function of the state, `none` where a `require`, `have` or `remove` of
-- the source fails; `remove` and `add` at one key are one `insert`. Ids, indices and versions of the
-- specifications are ℕ, as they are `nat` there. The executable code's additions and subtractions on
-- atomics wrap around at 2 ^ 64 (`wrapping_add`, `wrapping_sub`). A map is a function into `Option`.
-- Where the source leaves a value open (a read past the end of a sequence or of a map) the model says
-- at the definition what it takes.
--
-- The lock of exec/rwlock.rs is modelled with all interleavings: a step relation on the lock and
-- the points where its threads are. The functions of the log and of the replica are those of a
-- caller that runs alone; interleavings are those of the state machines above. There `none` says
-- that the code waits for another thread, or that an access is out of range. The weak compare-
-- exchange of `append` asks an oracle, `succeeds`. The loops of `append`, `advance_head`,
-- `get_response` and `wait_synced` take fuel, one unit for each pass. One pass is enough for
-- `append` where there is room and the compare-exchange goes through; `advance_head` takes two
-- where all replicas but the caller's are ahead of the head; `get_response` takes one after a
-- round of combining, and the wait of a read two. The other loops are structural. `tail_too_big`
-- is the code's warning at `MAX_IDX`, after which it loops for ever.
--
-- Not modelled: the ghost tokens that the code under exec/ carries; memory layout; the warnings of
-- loops that wait for long; what threads do between the accesses of the log and of the replica; the
-- threads of the example; the benchmarks; spec/utils.rs and exec/utils.rs, lemmas on sequences. What the
-- cyclic buffer stores (cell permissions and log tokens), and `stored_type_inv`, are parameters.
-- `Dispatch` has the trait's specification functions; the executable `dispatch`, `dispatch_mut` and the
-- clones return what those say.
pub mod Prelude
pub mod Dispatch
pub mod Exec
pub mod Counter
pub mod SimpleLog
pub mod AsyncSingleton
pub mod Behavior
pub mod Linearization
pub mod UnboundedLog
pub mod LogRefinement
pub mod RwLockSpec
pub mod FlatCombiner
pub mod Tests
pub mod CyclicBuffer
pub mod NrLog
