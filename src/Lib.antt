-- ===== src/Lib.antt =====
-- agent_infra_system: the run kernel and the decision kernel of the program.
--
-- The program is a Go service of three kernels behind an HTTP router. The run kernel
-- (internal/run/kernel.go, internal/run/types.go) creates runs, advances them step by step under
-- decisions, parks and resumes them with continuation tokens, aborts them, and sweeps those that
-- are overdue or make no progress. It asks the decision kernel (internal/decision/service.go,
-- internal/decision/types.go) through an interface. That kernel keeps a pending decision for each
-- step that may run, which the advance of the run or an approval confirms, checks execution receipts
-- against tickets and guards side effects. What both emit to their outboxes goes on to the evidence
-- kernel (internal/evidence) through the router (internal/httpapi/router.go).
--
-- The files, and the code each of them models:
--   Base and Base/*            Go's strings, int64, float64, maps, time.Time and time.Duration
--   Platform                   JSON encoding, SHA-256 and url.Parse as parameters; hashJSONWithStatus
--   Run/Types, Run/States      internal/run/types.go; the tests and tables on states and risks
--   Run/Roots                  anchorRootLocked, anchorByStateLocked
--   Run/Outbox                 emit, cleanupOutboxLocked, Outbox, DrainOutbox
--   Run/Steps                  appendSyntheticStepLocked, StepIntegrities
--   Run/Setup and below        NewKernel, GetRun, FindActiveContinuation, FlagRunRisk
--   Run/Create and below       CreateRun
--   Run/Obligations and below  enforceDecisionObligationsLocked and its helpers
--   Run/Advance and below      AdvanceRun: the decision gate, the commit, what success means
--   Run/Park, Run/Resume       ParkRun; ResumeRun and AbortRun
--   Run/Caches, Run/Sweep      the cleanups; SweepTTL, SweepZombie, MaintenanceSweep
--   Run/Spec                   the abstract view: what one operation may do to one run
--   Run/Refines                the refinement of that view by every operation, and its consequences
--   Decision/Types, Statuses   internal/decision/types.go; the statuses of decisions and cases
--   Decision/Setup             NewKernel of internal/decision/service.go
--   Decision/Events            emitEvent, trimOutboxLocked, Outbox, DrainOutbox
--   Decision/Pending           createPendingDecision, ConfirmRunAdvance, TerminalizePendingDecision,
--                              IsDecisionConfirmedWithOwner
--   Decision/Repair            RepairPendingDecisions
--   Decision/Approvals         CreateApprovalCase; below it DecideApprovalCase, what the outcome does,
--                              SweepApprovalHardTimeouts
--   Decision/Cleanup           CleanupExpired
--   Decision/Receipts, Gate    ValidateExecutionReceipt and its callers; CanExecuteSideEffectFinal
--   Decision/History           recordDecisionLocked and the reads of stored decisions
--   Decision/Reference         GetDecisionReference: what the run kernel is told of a decision
--   Decision/Contracts         internal/decision/contract_store.go, contract_runtime.go: the store
--                              of feature-signal contracts, its watchers' channels and the cache
--   Decision/Spec              the abstract view: what one locked region may do to a pending decision
--   Decision/Refines           the refinement of that view, and its consequences
--   Router/Ports and below     internal/httpapi/router.go: the adapters that make each kernel the
--                              port of the other, and what they carry across
--   */Tests                    concrete runs, and the theorems at them
--
-- The state of a kernel is a record, `Kernel` or `Service`, with a field for each field of the Go
-- struct. An operation is a function from the state to the state after it and its answer. The mutex
-- of the run kernel makes each of its operations one atomic step, so `Call` in Run/Refines/Calls is
-- its step relation, and `Reachable` what any order of calls can lead to. The decision kernel has a
-- lock for each domain, and an operation may take several in turn: its step relation is `Region` in
-- Decision/Refines/Regions, one locked region each, with any arguments; `Trace` is an interleaving of
-- them. Writes through a pointer that a map holds are writes to the map. Maps are association lists. A loop over a
-- map goes in the order of the list, and only the order of the events it emits depends on it.
--
-- What the model takes as given. Texts are valid UTF-8, and the case maps cover the characters that
-- map to or from an ASCII letter; ids that are cut and references that are taken apart are ASCII. A
-- time is a number of nanoseconds since year 1, a duration an int64. int64 and uint64 wrap where the
-- code counts up or multiplies. A state, a risk, a token type and a status are enumerations that are
-- parsed where a request enters, as the code's tests on them do. The answers of a port are functions
-- while one call runs. A float64 is its bit pattern. A creation is a step of `Call` only where its id
-- is free (`IsFresh`): the code makes ids from a counter and does not test them. The model has no
-- fuel: every loop is over a list.
--
-- The contract store has steps of its own (`Step` in Decision/Contracts/Latest): puts, commits, sends
-- and receipts in any order, for one watcher among others. A channel is the list of what is queued and
-- the sender that is blocked on it, if any.
--
-- Not modelled: of the decision kernel, the evaluation of runtime, schedule and release decisions, the
-- metrics, the control plane (internal/decision/control_plane.go), the end of a watcher and the worker
-- that activates contracts; a pending decision is opened by the function that the evaluation calls,
-- with any arguments, and a stored decision is recorded from any content. The evidence kernel, the
-- HTTP side of the router with its synchronisation of the outboxes, and cmd/agent-infra are not
-- modelled.
pub mod Base
pub mod Platform
pub mod Run
pub mod Decision
pub mod Router
