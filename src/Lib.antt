-- ===== src/Lib.antt =====
-- ndmspc: analysis of multi-dimensional parameter spaces. This library models how the tasks of a
-- sweep over a box of integer coordinates are made, handed to threads or to worker processes,
-- acknowledged, and recovered from workers that fail, how the axes of such a space are divided into
-- bins and put into another order, and how a server keeps a history of the requests that it has
-- answered. Paths are from the root of the repository.
--
-- The parts and their files:
--   * Tasks: core/NTaskStateManager.h and .cxx, class `NTaskStateManager`. Tasks/Defs has its seven
--     fields as the record `State` and each method as a function of the same name (AddPending is
--     `add_pending`, ClaimNextPendingForWorker is `claim_next`), which returns the new state beside
--     the method's result; a method that throws returns `none`. Each of Tasks/Partition, Owners,
--     WorkerSets and Payloads states a part of the class invariant, Phases the moves of a task
--     between the states, Lifecycle all of these as one table, Counts the sizes, History runs of
--     calls.
--   * Sweep: core/NDimensionalExecutor.cxx, the constructor from two bounds, `SetBounds`,
--     `Increment` and the sequential `Execute`. Sweep/Defs has the code; Sweep/Box the list of the
--     points between the bounds, defined apart from it.
--   * Supervisor: core/NDimensionalExecutor.cxx, `ExecuteCurrentBoundsProcessIpc` and
--     `HandleWorkerFailure`. Supervisor/Defs has the session and the local variables of the function
--     as one record `Run`, and as functions the dispatch of a batch, the send, the handlers of ACK
--     and ACKB, the failure of a worker and the test of the main loop. The supervisor owns a task
--     manager and an executor and calls their methods. Supervisor/Balance says when its counters
--     agree with the task manager; `leak` is by how much `outstanding` is too large. Supervisor/Loop
--     has the main loop as a sequence of events: a round of the inner loop with the choice of the
--     worker, a received message as its list of frames, a worker that is lost, and what ends the
--     run. Loop/Rounds and Loop/Whole are about such sequences, Loop/Bootstrap about
--     `HandleBootstrap`. Supervisor/Finish has the wait of `FinishProcessIpc` over TCP.
--   * Wire: core/NDimensionalIpcRunner.cxx, the texts in the frames: lists of coordinates and of ids
--     and the batch of TASKB (which core/NDimensionalExecutor.cxx writes). Wire/RoundTrip and
--     Wire/Batches are about reading them back, Supervisor/Loop/Replies about the ids of ACKB.
--   * Worker: core/NDimensionalIpcRunner.cxx, `TaskLoop`, with `SendFrames` and `ReceiveFrames` at
--     the edge. Worker/Defs has its variables as the record `TaskLoop`, the surroundings as the
--     record `World`, and the parts of a batch; Worker/Messages the handlers, a round of the loop
--     and its end. The frames that go out and the calls of the worker's object are kept in a log.
--     Worker/Rounds has the rule of invariants; Answers and Acknowledged are about tasks and their
--     acknowledgements, Notices, Told and Leaving about SHUTDOWN, Serving, Batches and Service about
--     a worker that nothing disturbs, which reads what Wire writes, and Crash about a task that
--     throws.
--   * Pool: core/NDimensionalExecutor.cxx, `ExecuteParallel`. Pool/Defs has the steps of the main
--     thread and of the workers on the shared queue, counters and flags; Pool/Invariant says where
--     the points are between two steps, and Pool/LostWake is about the wait of the main thread.
--   * Binning: core/NBinning.cxx and core/NBinningDef.cxx. Binning/Ranges has `GetAxisRangeInBase`
--     of base/NUtils.cxx, Defs the methods that add bins to an axis (`AddBinning`,
--     `AddBinningVariable`, `AddBinningViaBinWidths`), Walk those that read the coordinates of a
--     point (`GetAxisRanges`, `GetCoordsRange`, `GetAxisBinning`), Fill the method `FillAll`, which
--     uses the executor of Sweep, Storage the edges of the axes of a definition, Definitions the
--     store of the definitions, with `AddBinningDefinition`, `GetDefinition` and
--     `SetCurrentDefinitionName`, and Ids the methods `RefreshIdsFromContent` and
--     `RefreshContentFromIds` with the methods of core/NBinningPoint.cxx that set a point to a bin
--     (an id is not negative, which would be no bin either). Tiling and Widths are about the bins
--     that are added, Coordinates and AxisBinning about points that are given axis by axis, Product,
--     Filling, Marking and Outcome about `FillAll`, Ending and Store about calls on the definitions,
--     Numbered and Refreshed about the ids.
--   * Server: http/NGnWorkspace.cxx and `ProcessRequest` of http/NGnHttpServer.cxx, as far as they
--     are about the history. Server/Defs has the entries, the handlers and the methods `AddEntry`
--     and `RemoveEntry`, Requests the function `ProcessRequest`. What a handler does is an argument,
--     which sees the calls before it; a handler is taken not to change the history itself. Removing,
--     Table and History say what is left of the history, Schema is about the path of the schema, and
--     Names about any number of requests, of which an exception ends one and not the server.
--   * Sparse: base/NUtils.cxx, `ReshapeSparseAxes`. Sparse/Defs has its checks and what it makes of
--     the axes and of the bins, Orders is about the orders that pass, by Arranged, Axes and Points
--     are about what becomes of the axes and of the bins.
--   * Base: lists, sets as ascending lists (std::set, and std::unordered_set, whose order is not
--     used), maps as association lists, and integers. Tests: runs at concrete inputs.
--
-- What the environment decides is an argument: whether ZeroMQ takes a message (`sent`), whether the
-- user has interrupted (`poll`), what std::stoull or std::stoi reads (`parse`, with `none` where it
-- throws) and a stream prints (`print`), which message comes and which worker is silent for too
-- long. Events come in any order, also in orders that the clock would not allow, and after an error
-- nothing is followed, since the run then throws.
--
-- A ROOT axis is its number of bins; the map of the bins is the list of its filled points, in the
-- order in which ROOT iterates, and what `FillAll` fills is the list of the points of the content.
--
-- Bounds and fuel: `Execute` runs on fuel, and the volume of the box is enough; `FillAll` behind
-- `AddBinningDefinition` has the fuel `nTotalBins`. `TaskLoop` waits for messages as long as there
-- are none, so its theorems are about any number of rounds. The loops that fill a batch run on the
-- bound that the code tests (`redistPerBatch`, `adaptiveBatchSize`). An `int` is an integer: bounds
-- of coordinates are taken to be below the largest `int`, since `Increment` goes one above the
-- bound. The counters of type size_t do not wrap: they count tasks of one sweep. The subtractions
-- stop at 0 only where the code takes the minimum or tests for 0 first.
--
-- Not modelled: processes, sockets, signals, clocks and the time of last activity, log and progress
-- output, the constructor from a ROOT histogram, the start of a session, how a worker process is
-- started and awaited, the numbers that ROOT gives the points of a definition, the JSON of a
-- workspace and what web sockets are told of it, and all that reads or writes ROOT objects.
pub mod Base
pub mod Tasks
pub mod Sweep
pub mod Wire
pub mod Binning
pub mod Pool
pub mod Supervisor
pub mod Worker
pub mod Server
pub mod Sparse
mod Tests
