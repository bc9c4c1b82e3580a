-- ===== src/Lib.antt =====
-- Slurm Manager: submission of jobs to Slurm over its REST service, and their monitoring through
-- messages that a worker on the compute node publishes over Redis.
--
-- The parts and how they interact. `SlurmManager` (slurm_manager/slurm_manager.py) packs a script,
-- submits it held through `SlurmRestClient` (slurm_manager/slurm_rest_client.py) with validated
-- `JobOptions` (slurm_manager/job_options.py), has the `JobTracker` (slurm_manager/job_tracker.py)
-- monitor it, and then releases it. The tracker subscribes to the job's heartbeat, status and log
-- topics through `RedisSubClient` (slurm_manager/redis_sub_client.py), whose listener calls the
-- tracker's handlers with parsed messages (slurm_manager/event_messages.py). The handlers update
-- the `JobFuture` (slurm_manager/job_future.py), drop the job when its status is terminal, and
-- hand the user's callbacks to an executor. A monitor thread asks Slurm for jobs whose heartbeats
-- are missing.
--
-- Files and state.
--   Base: numbers and tests, text, Python dictionaries, exceptions as values, JSON values.
--   Message: the message classes and `parse_slurm_message`.
--   Future: `JobFuture` as a record; its methods are functions of the record.
--   RedisSub: `RedisSubClient` as a record of its three dictionaries, its listener flags and the
--     commands sent so far; RedisSub/Connect has its constructor, RedisSub/Waiting
--     `wait_until_subscribed`, RedisSub/Listener a round of `_listener_loop`, RedisSub/Reachable the
--     steps that lead from a new client to others.
--   Tracker: the state of `JobTracker` (Tracker/State), topics (Tracker/Topics), callbacks and the
--     executor (Tracker/Dispatch), `apply_status` and `remove_subscriptions_for_job`
--     (Tracker/Status), registration (Tracker/Register), removal and shutdown (Tracker/Remove),
--     delivery, heartbeats and scheduler checks (Tracker/Monitor). Tracker/Tracked has the
--     invariant of the tracker and its client, Tracker/Reachable the steps that lead from a new
--     tracker to others, and Tracker/Routing what a message leads to.
--   Rest: `SlurmRestClient`, its settings and requests; Rest/Connect has its constructor, and
--     Rest/Jobs the four job operations.
--   Options: `JobOptions`, its validation and its REST form.
--   Manager: `submit_job` (Manager/Submit), `_build_job_script` (Manager/Script), `cancel_job`
--     (Manager/Scheduler), the reading of a scheduler record (Manager/ExitCode), the check of a job
--     (Manager/Check), and in Manager/Service the constructor, the calls passed on to the tracker,
--     the monitor thread, one check or one test of its flag to a step, and `shutdown` with the
--     steps that the thread takes while it is joined. Manager/Submit/Ends follows a submission to
--     the status that ends its job.
--   Example: `main` of examples/submit_job.py, which submits one job and waits for it.
--   Tests: the theorems at concrete inputs.
--
-- Conventions. A text is the list of its code points, and a time a number of microseconds. JSON
-- numbers are integers. Ids that `uuid4` draws are arguments, and so is what Redis and the clock
-- answer. A Redis subscription may be refused by an exception; the commands that unsubscribe are
-- taken not to raise. The executor accepts tasks until the tracker is shut down and refuses them by
-- an exception after that; the steps of Tracker/Reachable are those before the shutdown.
-- `JobFuture` objects live in a heap that is indexed by addresses, since the tracker, the caller
-- and the handlers share them; a `SubscriptionInfo` object is changed where the tracker has it
-- registered. Handlers are data: each constructor of `Handler` is one closure of the source with
-- what it captures. Callbacks of the user are known by number only, and run by the executor; the
-- tracker's state has the tasks it accepted. The message object that several callbacks share is
-- passed through them. A set is a list without repetition in the order of insertion. A method under
-- the tracker's lock is one function; `add_subscription` holds the lock twice and is cut in three,
-- so that what other threads do between the parts can be put in; among the steps of
-- Tracker/Reachable it is one step, and so are the three registrations of `track`. `submit_job` is
-- modelled without other threads between its parts. All recursion is structural, so there is no
-- fuel.
--
-- Parameters: pydantic's validation of messages and its strip, the digits of `str.isdigit` and of
-- `re`, `json`, `bytes.decode`, `str`, `int` of a text, `shlex.join`, the file system, dotenv, and
-- urllib's `urlsplit` and opener.
--
-- Not modelled: the Go worker, the tests and packaging; logging and printing; the run of
-- accepted tasks by the executor, but for the lines of the log that the closure in Example keeps.
pub mod Base
pub mod Message
pub mod Future
pub mod RedisSub
pub mod Tracker
pub mod Rest
pub mod Options
pub mod Manager
pub mod Example
pub mod Tests
