-- ===== src/Lib.antt =====
-- A model of Pantheon Legion: the Mission kernel, which owns Missions, approvals and the audit log;
-- the authorization engine in front of it; the durable execution adapter and the tool broker
-- beside it; and the runtime of the agents, which keeps their assignments and their work in a
-- database and asks the control plane before each step.
--
-- legion_kernel/kernel.py is modelled by Kernel. A method of `LegionKernel` is a function of the
-- same name from its arguments to `Exec A`, which takes a state and gives a value or a raise and the
-- state that is left: what was written before a raise stays written. The state (`Kernel` of
-- Kernel/State) has the dicts of the object as association lists, and counts how often uuid4 and the
-- clocks were read. The objects that Python shares are values here, and each change of a shared
-- Mission or approval is a write of it into its dict.
--   Kernel/Types       the enumerations and dataclasses
--   Kernel/Rules       _authorize_command, _validate_transition, _execution_state_error,
--                      _capability_denied, _requires_approval
--   Kernel/Payload     _payload_error and the tests that it calls
--   Kernel/Journal     _record, _reject, _remember, _expire_approval_if_needed
--   Kernel/Command     submit_command; what each command changes is in Kernel/Command/Effects,
--                      what it reads from the payload in Kernel/Command/Values
--   Kernel/Approvals   decide_approval
--   Kernel/Execution   execute_action and the gate in front of it
--   Kernel/Creation    create_mission
--   Kernel/Facts       the record_ methods and timeline
-- The proofs about it stand in Kernel/Stable (what every write keeps, every method keeps),
-- Kernel/Run (any sequence of calls), Kernel/AuditLog, Kernel/Keyed, Kernel/AtMostOnce,
-- Kernel/Memory and Kernel/Retry (idempotency keys), Kernel/Outcomes (accepted and refused
-- commands), Kernel/Lifecycle (what docs/mission says of the statuses), Kernel/Leaves and
-- Kernel/Decisions (approvals), and Kernel/Gate (execution and recovery).
-- Kernel/Samples and the Tests modules have the concrete states of the tests.
--
-- aquila_api/authorization.py is modelled by Authorization, with the tests of `_evaluate` as
-- functions into an optional reason; Authorization/Meaning says what an authorization means.
--
-- legion_runtime/durable.py is modelled by Durable: start, query, signal, cancel, recover, complete
-- and fail of `InMemoryDurableExecutionAdapter`, on the store of Durable/Records. Durable/Lifecycle has the
-- diagram of the states, Durable/Steps the steps of the calls, Durable/Reuse the repeated start, and
-- Durable/Snapshot has `snapshot` and `_restore`.
--
-- legion_fabrica/fabrica.py is modelled by Fabrica: the dict of declared tools, with register,
-- resolve and invoke. A tool's handler is a function of its arguments, which may raise.
--
-- legion_runtime/service.py is modelled by Runtime, with the records of agent.py and work.py, the
-- queries and writes of postgres.py, and the keys, unique indexes and foreign keys of database.py.
-- An operation of `PersistentAgentRuntime` is a `Session`: a function from the tables to a value or
-- a failure and the tables that are left. A transaction that fails leaves the rows from before; ids
-- and times stay drawn.
--   Runtime/Checks, Runtime/AgentChecks, Runtime/WorkChecks
--                      what the `__post_init__` methods refuse; messages are shortened
--   Runtime/Store      the tables, failures, and `transaction`
--   Runtime/Repository the repository of postgres.py: save_work_item, next_event_sequence and so on,
--                      with WHERE, ORDER BY and max in Runtime/Queries
--   Runtime/Service    _event, _prior, _remember, _require_active_actor and the other helpers
--   Runtime/Service/Agents, Assignments, Completing, Resume
--                      create_centurion and create_scout, request_assignment and
--                      reconcile_assignment, _complete_assignment, resume_assignment
--   Runtime/Service/Delegation, Claims, Cancellation, Reconciliation
--                      delegate_work, claim_work, cancel_work, reconcile_work
--   Runtime/Service/Execution, Evidence, Failing, Finishing, Scouting
--                      the transactions of execute_scout_work, _fail_work_attempt, and
--                      execute_scout_work composed of them
-- What the authority, the Mission context, the evidence reader and cognition answer is a function of
-- what the runtime has read at that point. Runtime/Run has any sequence of operations and of the
-- transactions of operations, so that other calls may come between two transactions of one.
-- Runtime/Stable has the rule for invariants and Runtime/Ends that for what holds where an action
-- returns; Runtime/Numbering, Runtime/Growth, Runtime/Actors, Runtime/Fencing, Runtime/Granting and
-- Runtime/Attempts have the theorems, the last with Runtime/Ordering on ORDER BY, and
-- Runtime/Rollback, Runtime/Staging and Runtime/Remembering those on what an operation leaves that
-- raises, and on what a key stands for.
--
-- Base has the parts of Python that the program rests on: dict, str, and JSON values.
--
-- Every loop is structural recursion, over a list, a text or a JSON value. `show` recurs on fuel, one
-- more than the number, which has no more digits than that.
--
-- Parameters stand for what the repository does not implement: the texts of uuid4, the readings of
-- the clocks, SHA-256 of a printed document, and the addition of minutes to an ISO 8601 time
-- (`World` of Kernel/State, `Sources` of Durable, `Ports` of Runtime/Store, where `encoded` is the
-- length of printed data). Two printed JSON documents are taken to be equal
-- just when their values are, once their keys are sorted. Numbers are compared by their text, where
-- the == of Python on the input of an execution also equates 1, 1.0 and True. An object that the
-- program changes in place is written back under its own id, which no code assigns; and a query
-- without an order, or in the order of a time, is the first row in the order of the inserts, where a
-- unique index leaves one row to be found. Digits of other scripts than ASCII, which
-- Python takes in a UUID, are left out.
--
-- Not modelled: the HTTP service, and the cognition and knowledge components. Of the runtime: the
-- sessions of work with tools, with provenance and of the experiment (tool_cognition.py,
-- provenance.py, spike_session.py), which are a parameter behind the start of such work; the intake
-- of investigations; a transaction opened inside another, which no operation does; widths of columns; isolation of transactions that share no lock key, since a
-- transaction is one step here.
pub mod Authorization
pub mod Base
pub mod Durable
pub mod Fabrica
pub mod Kernel
pub mod Runtime
