-- ===== src/Lib.antt =====
-- The Dashboard: the workflow, governance, transcript, context and research runtimes of the
-- backend.
--
-- The backend keeps everything in database tables. The workflow runtimes (backend/workflows) move a
-- workflow between its statuses and record each move as an event of the workflow; the recovery
-- restores a workflow and replays those events against its row; the rollback coordinator cancels a
-- workflow with its audit trail; the lease decides which worker may execute it; the retry
-- coordinator plans retries and dead letters as events. The governance runtimes
-- (backend/governance) keep freezes, kill switches and quorum votes as events of one governance
-- log, and the start and the advance of a workflow ask their freeze gate first; delegations are
-- rows of a table of their own beside that log, and so are the versions of the policies, from which
-- the evaluator classifies an action before the engine enforces it. The
-- transcript runtimes (backend/transcripts) keep streaming sessions, whose committed chunks are
-- numbered rows from which a transcript's text is rebuilt. The context window cuts a list of items
-- down to a token budget. Research jobs and their tasks are status machines of their own, and the
-- task graph orders the tasks of a job. AI executions are a status machine with a limited number of
-- attempts, which the AI gate stops for an approval.
--
-- Common holds what the modules share. `Common.Effects` is the session: a method maps the tables to
-- an outcome (returned or raised) and the tables after it; what was written before an exception
-- stays in them. `Common.Tables` has the table operations, with rows in the order of creation.
--
-- Governance.Events    the log: models/governance_event.py, repositories/governance_event.py
-- Governance.Freeze    backend/governance/freeze.py: `activate`, `deactivate`, `kill_switch`,
--                      `is_frozen`, `get_spec` for `_get_spec`
-- Governance.Delegation
--                      backend/governance/delegation.py with the approval_delegations table
-- Governance.Policy    backend/governance/policy.py with the governance_policies table
-- Governance.Quorum    backend/governance/quorum.py: `cast_vote`, `get_result`
-- Governance.Engine    backend/governance/engine.py and events.py: `check_freeze`
-- Governance.Glob      the patterns of `fnmatch`, which the evaluator uses
-- Governance.Evaluator backend/governance/evaluator.py, over rows and snapshots
-- Governance.Enforcement
--                      backend/governance/engine.py: `evaluate_action`, `enforce_action`, with the
--                      record of governance/audit.py
-- Workflow.Status      backend/workflows/states.py and transitions.py
-- Workflow.Graph       backend/workflows/graph.py
-- Workflow.Database    the tables (backend/models), in Workflow.Database.Tables, and repositories
--                      (backend/repositories/base.py, backend/workflows/persistence.py); `Db` is the
--                      state of the workflow side
-- Workflow.Runtime     backend/workflows/runtime.py: `start`, `advance`, `pause`, `resume`,
--                      `complete`, `fail`, `cancel`
-- Workflow.Recovery    backend/workflows/recovery.py and checkpoint.py
-- Workflow.Rollback    backend/workflows/rollback.py, coordinator.py and compensation.py
-- Workflow.Calls       sequences of calls of the three above
-- Workflow.Approvals   backend/workflows/approvals.py and escalation.py, repositories/approval.py
-- Workflow.Snapshots   backend/workflows/snapshot.py: `take`, `restore`; `get_latest_snapshot` for
--                      `get_latest` and `get_all_snapshots` for `get_all`
-- Workflow.Orchestrator
--                      backend/workflows/approval_orchestrator.py; its Calls are sequences of calls
--                      of the runtimes, the gate, the snapshots and the orchestrator
-- Workflow.ResumeValidator
--                      backend/workflows/resume_validator.py
-- Workflow.Lease       backend/workflows/lease.py
-- Workflow.Retries, Workflow.DeadLetter, Workflow.RetryCoordinator
--                      backend/workflows/retries.py, deadletter.py and retry_coordinator.py
-- Transcripts.Tables   models/transcript_stream.py, transcript_chunk.py, transcript_event.py and
--                      backend/transcripts/repositories; `Store` is the state of the transcripts
-- Transcripts.Stream   backend/transcripts/stream.py; Transcripts.Calls has sequences of its calls
-- Transcripts.Reconstruction
--                      backend/transcripts/reconstruction.py
-- Context.Window       backend/context/window.py
-- Context.Budget       backend/context/budget.py, with integers that may be negative
-- Research.Tables      the tables of the research runtimes (backend/models/research_*.py)
-- Research.Job         backend/research/job.py
-- Research.Task        backend/research/task.py; Research.Calls has sequences of calls of both
-- Research.Graph       backend/research/graph.py: `topological_order`, `is_unblocked`
-- Research.Spec        backend/research/graph.py: `build`, with its check `validate_spec`
-- Ai.Registry          backend/ai/registry.py
-- Ai.Execution         backend/ai/lifecycle.py, with ai/contracts.py, ai/context.py and the table
-- Ai.Gate              backend/ai/gate.py; Ai.Calls has sequences of calls of these
-- Tests                runs on concrete inputs
--
-- Identifiers (UUIDs) are natural numbers and timestamps are microseconds; the time that a method
-- reads and the identifiers that it draws are arguments. A payload that the code itself writes is
-- the argument list of an event's constructor; a payload that a caller hands over is an association
-- list. Text of an error message is left out, its parameters are kept. Loops are structural
-- recursion over lists; only the searches of Research.Graph and Research.Spec have fuel, the number
-- of the tasks of the job and that of the nodes, since each of their rounds visits one
-- (`ResearchError.out_of_fuel` stands for a search that would go on, `missing_index` for the KeyError of a task without an index). Calls are atomic: the
-- row locks of the database make the calls on one row follow one another, and interleavings are
-- sequences of calls.
--
-- Not modelled: the columns, event types and fields that the modelled methods neither read nor
-- write, foreign keys to tables of another part, logging, the publication of domain events to subscribers, commits and rollbacks of a
-- transaction; the routing of approvals and the emergency overrides, the
-- research plans, the integrity sweeps, the assembly of a
-- context and the transcript checkpoints, which stand beside the parts above; and the API routes,
-- calls, realtime and the frontend, which are glue around them.

pub mod Common
pub mod Governance
pub mod Workflow
pub mod Transcripts
pub mod Context
pub mod Research
pub mod Ai
pub mod Tests
