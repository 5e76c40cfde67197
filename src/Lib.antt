-- ===== src/Lib.antt =====
-- A model of the safety core of an agent framework for Kubernetes recovery. Agents propose a
-- recovery action and review it; a resolver turns the reviews into a decision; a validator checks
-- the action against allowlists and bounds; an executor renders it as a kubectl command and runs
-- it or hands it to a guard written in Go; and a runner of experiment jobs does this in the
-- background, over a store of jobs and events.
--
-- Base and Python hold what the other files share: lists, texts as lists of code points, results
-- that may be errors, and those parts of Python's standard library that the code uses
-- (shlex.split, str.isdecimal, int and str on integers, strip, lower, dictionaries and sets of
-- texts). Json is the JSON value, and Floats the operations on floats, which are a parameter.
--
-- Actions models src/aiops_k8s_agents/models.py. Validator and its children model
-- src/aiops_k8s_agents/validator.py: Validator the checks of an action (validate_recovery_action,
-- validate_scale_action) and the rendering of commands, Validator.Command the reading of a command
-- line (validate_command, validate_recovery_command). Validator.Names and Validator.Safety say
-- what a good name and a safe action are, Validator.Templates what an approved command is, and
-- Validator.Printing how printed commands split into words. Python's values that the type
-- annotations rule out but the code tests for are constructors: a count may be an int, a bool or
-- another value, and a kind may be no member of its enumeration.
--
-- Executor models src/aiops_k8s_agents/executor.py: execute_recovery and execute_scale pass a
-- world through the runner of commands and through the Go guard, both parameters. Executor.Permits
-- is about the commands that reach the runner, Executor.Guard about the answers of the guard.
--
-- Jobs.Rows and Jobs.Store model src/aiops_k8s_agents/experiment_jobs.py: each method of
-- SQLiteExperimentJobStore is an action on two lists of rows, and every call gets its time as an
-- argument. Jobs.Runner models _run_job of src/aiops_k8s_agents/experiment_job_runner.py; what the
-- runtime, the incident adapter and the user do in each attempt is a function of the number of the
-- attempt, so a cancellation may come at any of them; what other callers write to the store during
-- a run is not part of it, and that includes the write with which cancel of the runner begins.
-- Jobs.Invariant, Jobs.Ending, Jobs.Verdict and Jobs.Race hold the theorems, Jobs.Tables and
-- Jobs.Events their lemmas.
--
-- Protocol models the profile and its validation in src/aiops_k8s_agents/research_protocol.py, and
-- Consensus the resolver of src/aiops_k8s_agents/consensus.py, which validates its profile first.
-- Monitor models the Kubernetes monitor of src/aiops_k8s_agents/recovery_monitor.py, which asks a
-- provider for snapshots until one shows the recovery or its attempts are used up. Lock models
-- src/aiops_k8s_agents/operation_lock.py as a system of processes that share one lock file; a list
-- of events says which process makes its next call, and what it would find out about an owner.
--
-- Sessions models the store of src/aiops_k8s_agents/experiment_session.py that keeps the newest
-- sessions for the console, and Sessions.Stages the statuses that their stages are shown with.
--
-- Coordinator models src/aiops_k8s_agents/mutual_supervision.py: Coordinator.Outputs the checks of
-- what the agents return, Coordinator.Negotiation the rounds of _negotiate, Coordinator.Attempts
-- the loop of run over the candidates and Coordinator.Run the rest of run. It calls the validator
-- of Validator and the resolver of Consensus; the number of the attempt or of the round tells the
-- calls of the world apart, and the loops recur on the number of rounds and on the list of
-- candidates, so they need no fuel. Its evidence provider, its executor and its monitor are calls
-- of the world that may answer anything or raise, and what they raise leaves the run; so what
-- holds of the runs holds of those with Executor and Monitor. Coordinator.Asked, Heard, Consent,
-- Sound, Invariant, Keeping, Steps, Safety, Promise and Revision hold the proofs.
--
-- Partition models the validation of plans that spread a model over devices. Its records are those
-- of src/aiops_k8s_agents/partition_models.py. Partition.Cycle models the cycle search of
-- partition_validator.py, on fuel of one call for each node and one more, since each call inside
-- another visits a node of the graph that was not yet being visited, and a node outside of the
-- graph has no targets; Partition.Cycle.Search and Decides hold its proofs. Partition.Validator
-- with Placement, Graph and Legacy models _validate_legacy, and Partition.Requested models
-- _validate_v2, over the requests of Partition.Request (partition_coordination.py,
-- partition_context.py) as Partition.Common (partition_common.py) normalizes them; the SHA-256
-- digests of canonical JSON are parameters, and Partition.Signature builds the payload that the
-- signature of a plan digests. Partition.Candidate models how model_partition_agent.py builds a
-- candidate for an inference plan, by its loops over the participants and over the neighbours
-- among them, with the floats and their rounding as parameters. Partition.Candidate.Slices, Fits
-- and Built, Partition.Validator.Errors, Placed, Raises, Edges, Drawn, Executable, Sound and
-- Accepted, Partition.Common.Feasible, Partition.Requested.Serves and
-- Partition.Requested.Certified hold the proofs.
--
-- Policy models the severities and the recommended replicas of
-- src/aiops_k8s_agents/agent_decision_policy.py.
--
-- Treatment models src/aiops_k8s_agents/recovery_runner.py: Treatment.Wait its loops that wait for
-- evidence, on a clock of whole ticks and with a turn for each tick of the timeout and one more,
-- and Treatment.Run run_recovery_treatment, as steps on a record and a world that may raise.
--
-- Runtime models src/aiops_k8s_agents/experiment_runtime.py: Runtime.Run is ExperimentRuntime.run,
-- whose calls of the coordinator, the fault injector, the lock and the event sink are answered by
-- an environment that may answer each call differently, by the history of the calls before it;
-- Runtime.Preflight is its preflight.
--
-- Examples runs the definitions on small inputs.
--
-- Loops: the attempts of a job are counted by the request, so the loop is structural; the digits
-- of a number are printed with fuel above the number, and each step divides it by ten. int refuses
-- more than 4300 digits, which the reader of commands keeps.
--
-- The coordinator's event store, its runtime control and the begin_run of its adapters, which may
-- raise, are left out: its runs are those in which they do not.
--
-- Not modelled: processes, files, HTTP and the web console; the agents that call a language model;
-- the training graphs, the choice among the candidates and the ranking of partition plans; the
-- statistics of experiments; the JSON encoding of rows; and the threads of the job runner.
pub mod Base
pub mod Python
pub mod Actions
pub mod Validator
pub mod Executor
pub mod Json
pub mod Jobs
pub mod Floats
pub mod Protocol
pub mod Consensus
pub mod Monitor
pub mod Lock
pub mod Sessions
pub mod Coordinator
pub mod Policy
pub mod Treatment
pub mod Runtime
pub mod Examples
pub mod First
pub mod Partition
