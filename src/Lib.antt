-- ===== src/Lib.antt =====
-- sioworkers: the server that hands out judging jobs to workers.
--
-- A client asks sioworkersd to run a group of tasks; the task manager stores the group, gives the
-- tasks to the scheduler, sends each task that the scheduler assigns to its worker through the
-- worker manager, and returns the results. The worker manager keeps the connected workers.
--
-- Prelude: shared names; Actions (state with exceptions), Outcomes (what an action leaves), Dicts (a
--   Python dict), Inserted and Perms (lists with an element put in), Int (signed integers), Lists,
--   Tests and Texts (texts as lists of codes).
-- Sorted: what the code uses of the package sortedcontainers, as operations with laws. SortedSet
--   and SortedList are parameters of the model; plain lists show that the laws can be met.
-- Ram: get_required_ram_for_job of sio/sioworkersd/utils.py. An amount of RAM in MiB is a number of
--   1024ths, since the code divides whole KiB by 1024 into a float that is exact.
-- WorkerManager: sio/sioworkersd/workermanager.py. Data has Worker and _updateWorkerStats. newWorker
--   is two steps, before and after its wait for get_running. Objects and Steps have the invariant of
--   the workers and the unanswered calls, Invariant what follows from it, Reconnect the race of two
--   connections of one name.
-- Scheduler: sio/sioworkersd/scheduler/prioritizing.py.
--   Task: TaskInfo and ContestInfo; the class counter sequence_counter is in the state.
--   Worker: WorkerInfo; Worker/Accounts relates its counters to the tasks that it runs.
--   Waiting: _WaitingTasksQueue; Waiting/Fifo has its order and its list of RAM amounts.
--   Queues: TasksQueues; Queues/Update (addTask, delTask), Queues/Choice and Queues/Share
--     (chooseTask). The number that randint draws is an argument.
--   Selection: the _getBest… methods; Selection/Best. A suitability is a float quotient in the
--     code and an exact fraction here.
--   Blocking: _getNumberOfBlockedAnyCpuWorkers; Blocking/Matching and Blocking/Choice say what it is
--     that workers can process tasks, Blocking/Minimal and Blocking/Suffices compare.
--   State: PrioritizingScheduler and its methods. Schedule: _scheduleOnce and schedule, on fuel;
--     without fuel they raise recursion_error, and how much is enough is not shown here.
-- Rpc: WorkerRPC of sio/protocol/rpc.py, one end of a connection. Places and Calls account for its
--   calls, Session has the handshake and what goes wrong before it is done.
-- WorkerProtocol: sio/protocol/worker.py, the commands at the worker's end.
-- WorkerServer: sio/sioworkersd/server.py, between the connections and the worker manager.
-- TaskManager: sio/sioworkersd/taskmanager.py: its database, addTaskGroup up to _addGroup,
--   returnToSio and what startService resumes. Admitting, Retries, Resuming, Survival and Finished
--   are about these. The answers that the attempts to return a result get are an argument, a list, and
--   so is what _addGroup raises when startService calls it again.
-- Judging: the verdicts of checker.py, common.py and interactive_common.py of sio/executors; Verdicts
--   and Solutions say when a solution is accepted. The Fraction of Python is an argument.
-- Dispatch: the rest of taskmanager.py, over Scheduler, WorkerManager and TaskManager: _addGroup,
--   _deferTask, _taskDone, _tryExecute, _newWorker and _lostWorker. A DeferredList is a counter of
--   the tasks that have ended. Frames, Counting, Fair, Ending, Answering and Adding are the parts of
--   the invariant that Waiting states; Returning is about the end of a group.
-- Paths: what the code uses of os.path, and path_join_abs and tempcwd of sio/workers/util.py.
-- Sandbox: sio/workers/sandbox.py, one instance with its lock file and directory. Installing is about
--   the check and the installation, Entering about __enter__ and __exit__, Locking about all users.
-- Executors: sio/workers/executors.py. What a started command does is a function of its text.
--   Quoting: _argquote, shellquote and ulimit; Quoting/Words has a reader of quoted words.
--   Process: execute_command, BaseExecutor.__call__, UnprotectedExecutor and
--     DetailedUnprotectedExecutor; Process/Detailed.
--   Supervised: _SIOSupervisedExecutor; Supervised/Verdict. Python's int is an argument.
--   Sio2jail: the command lines of Sio2JailExecutor and SupervisedExecutor.
--   Compound: CompoundSandboxExecutor, two sandboxes; Compound/Release.
--   Proot: SandboxExecutor and PRootExecutor; Proot/Leaks.
-- FileTracker: download and upload of sio/workers/ft.py; the client and the disk answer through a
--   record. Transfers relates the two, Working is about them where all they ask for is done.
-- Runner: run of sio/workers/runner.py with its filters; Failures is about its exceptions.
-- FileRunners: sio/workers/file_runners.py, the wrappers of programs by their kind; Limits is about
--   the limits that they pass on.
-- Generating: sio/executors/ingen.py; Collected says which files it gives.
-- Compilers: sio/compilers, with the files of a compilation. Driver has Compiler.compile and what the
--   classes override, Jobs the functions run of job.py and output.py, Running and Results what a
--   compilation ends with.
-- Not modelled: the operating system under the executors, the content of archives, the jobs of
-- sio/executors beside their verdicts, the patch of ELF files in sio/workers,
-- the SIORPC front end, the Twisted plugin, and every main. They build command lines, transfer files,
-- or wire the rest together.
-- Identifiers are natural numbers. A task or contest object that does not change is a value; a
-- queue of workers holds the worker objects as they were when they were put in. Logging is left
-- out, as is the printing of the queue.
pub mod Prelude
pub mod Sorted
pub mod Ram
pub mod WorkerManager
pub mod Scheduler
pub mod Paths
pub mod Sandbox
pub mod Executors
pub mod FileTracker
pub mod Runner
pub mod FileRunners
pub mod Generating
pub mod Compilers
pub mod Rpc
pub mod WorkerProtocol
pub mod WorkerServer
pub mod TaskManager
pub mod Dispatch
pub mod Judging
mod Tests
