-- ===== src/Lib.antt =====
-- sqlxmq: a message and job queue kept in PostgreSQL, with a Rust client that spawns jobs and runs
-- them.
--
-- The program has two halves. The migrations create the tables `mq_msgs` and `mq_payloads` and the
-- functions mq_insert, mq_poll, mq_commit, mq_delete, mq_keep_alive, mq_checkpoint, mq_clear and
-- mq_clear_all; the crate in src/ calls them. A job builder sends a row to mq_insert, which puts an
-- ordered message behind the last one of its channel and notifies the channel. A runner's main loop
-- calls mq_poll for as many messages as it has room for, hands each to a job of its own and waits
-- for a notification, which its listener passes on, or for the time that mq_poll told it. A job is
-- kept alive by a task that calls mq_keep_alive, may call mq_checkpoint, and is completed by
-- mq_delete; a job that is never completed is polled again after its backoff. The macro crate turns a
-- function into the NamedJob that a registry looks up for a polled job and that starts a builder.
--
-- Files, and the code that they model:
--
--   Prelude    library names passed on, and shared tests, lists, integers, errors and members
--   Store      migrations/20210316025847_setup.up.sql: the tables and their constraints
--     Insert     mq_insert, and mq_latest_message of migrations/20211013151757
--     Poll       mq_poll of migrations/20220208120856, mq_active_channels; with Poll.Claim,
--                Poll.Bound, Poll.Concurrent, Poll.Retries, Poll.Select and Poll.Serve about it
--     Schedule   mq_commit, mq_keep_alive, mq_checkpoint; with Schedule.TwoPhase about them
--     Remove     mq_delete; mq_clear and mq_clear_all of migrations/20220713122907
--     Consistent the invariant of mq_msgs; its children are about the calls and it;
--                Consistent.Order about the order of a channel
--     Payloads   what each call keeps of the payloads
--     Reach      the calls as steps from an empty queue; Reach.Stored about their payloads
--     Channel    the column after_message_id as one sequence of ids in a channel: Append, Remove,
--                Table, Left, Deleted, Heads, Spawned and Latest about who follows whom, Refine and Deliver
--                about the calls and a poll
--   Retry      src/lib.rs: should_retry
--   Spawn      src/spawn.rs: JobBuilder, spawn, commit, clear, clear_all, exists; with
--              Spawn.Effect, Spawn.Unordered, Spawn.Commit, Spawn.Notify, Spawn.Wake,
--              Spawn.Errors and Spawn.Stale about them; spawn_seeing is spawn at an outdated snapshot
--   Runner     src/runner.rs: JobRunnerOptions, JobRunner, CurrentJob and its drop
--     Job        Checkpoint and the methods of CurrentJob; Job.Complete about completing
--     Poll       to_duration and poll_and_dispatch; with Poll.Duration, Poll.Dispatch,
--                Poll.Failure, a call that ends with an error; Poll.Wait, the time to
--                wait; Poll.Delivery and Poll.Discard, the rows of committed and of
--                uncommitted messages; Poll.Outcome, what a call does with both
--     TestOne    test_one; TestOne.Outcome, how a call can end
--     Loop       main_loop, start_listener, wait_jobs_finish; with Loop.Backoff,
--                Loop.Finish, Loop.Rounds, and
--                Loop.Concurrency, where the loop, its jobs and the listener interleave
--     KeepAlive  keep_job_alive; with KeepAlive.Lease about it
--   Tasks      src/utils.rs: OwnedHandle; Tasks.Handle: JobRunnerHandle of src/runner.rs
--   Registry   src/registry.rs: JobRegistry and NamedJob; Registry.Lookup and Registry.Dispatch
--              about the constructor and about the dispatch of a runner made from one
--   Macros     sqlxmq_macros/src/lib.rs: the syntax trees that the attribute `job` tells apart
--     Args       interpret_job_arg, and the loop over the arguments; with Accept, Order and Kept
--                about lists of arguments
--     Expand     MaybeItemFn, its parsing and printing, and the parts of the item that `job` writes
--     Static     what that item means as a NamedJob; with Builder, Run and Tokens about it
--   Stress     sqlxmq_stress/src/main.rs: the jobs that it starts and the numbers that it prints;
--              with Stress.Jobs, Stress.Measured and Stress.Statistics about them
--     Main     main, as the events of its run; with Main.Tables, Main.Runs, Main.Holds,
--              Main.Completed, Main.Received and Main.Reports about the runs in which every job
--              starts and ends
--   Sleep      examples/graceful-shutdown.rs: the job sleep; with Sleep.Ends about it
--     Main       main, as the events until the stop signal and the waiting after it; with
--                Main.Counts, Main.Names and Main.Returns about its end
--   Scenarios  the tests of src/lib.rs: what a test does in time, and a round of its runner
--     Cases      the tests; Named has the jobs under their attributes and the registry
--     Single, Rounds, Start, Spawned, Tasks and Saving are about rounds with one job, Attempts,
--                Retries and Failing about a job that fails, Checkpoint and Saved about one that
--                saves its state
--
-- The modules Examples hold runs at small queues.
--
-- How the code is read. The database is a record of its two tables and of the notifications that
-- were sent; a call on it is a function to the tables that it leaves or to an error, which leaves
-- them as they were: a statement is one transaction. Transactions that interleave are sequences of
-- such calls; for mq_poll, whose subquery reads a snapshot and whose UPDATE reads the rows again
-- after waiting for their locks, the UPDATE (`claim`) takes whatever ids a snapshot may have given,
-- and for mq_insert, which computes its rows from a snapshot and meets the constraints after others
-- may have committed, `insert_seeing` takes the table that the snapshot saw.
-- A mutable object of the crate is a value that each method returns anew; atomics and `Notify` are
-- fields of the runner.
--
-- Numbers. A UUID is a number, the nil one 0. Times and intervals count microseconds, without an
-- upper end; a time before 0 is an error of the database. INT columns are integers with the check of
-- their range; `as i32` and the subtraction of usize wrap, as a release build has them.
--
-- Parameters, for what is not in the repository: `to_jsonb`, the database's reading of JSON text
-- (none where it refuses it); `shuffle`, its ORDER BY RANDOM(), of which some statements ask that it
-- makes up no channels; `Connection`, the answers that the client gets (`PgInterval` is what sqlx
-- reads an interval as); the texts that serde_json writes, and the values that it reads; the
-- functions of jobs, which see the registry's error handler and context; `Parsers` and `Syntax`, what
-- syn reads and prints; `Scope`, what the names in the macro's item mean, with the backoff in seconds
-- read only where Duration accepts it.
--
-- Recursion is structural, on the lists of rows and on the rounds of a loop that a statement is about;
-- the loop of the job sleep runs on fuel, which is enough if it is no less than the seconds to sleep,
-- and the waiting in the example's main on fuel for a test every 10 ms of its 10 seconds and one more.
--
-- Not modelled: the connection of each program, the clock and the throughput of the stress program, and
-- the set-up of the tests; the superseded and the down migrations, and the stress program's own
-- copies of the older ones, which its database may have, where mq_clear_all takes out the nil message,
-- too: both programs run on the crate's migrations here; logging; the
-- type NULL where a builder never sends it (a NULL id, channel or name).
pub mod Prelude
pub mod Store
pub mod Retry
pub mod Spawn
pub mod Runner
pub mod Tasks
pub mod Registry
pub mod Macros
pub mod Stress
pub mod Sleep
pub mod Scenarios
