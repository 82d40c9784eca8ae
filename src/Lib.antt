-- ===== src/Lib.antt =====
-- Verification of the search of metering: the Population Archive (an append-only ledger of candidates,
-- experiments, runs, archives and allocations), the measures of information on which its evidence rests,
-- the protocol that its documents follow, and the parts that make and check its evidence: the forecast
-- assay, the selection gate and the driver.
--
-- The parts and their files (paths of the repository):
--
-- Prelude: Booleans, native numbers, lists and texts. A text is compared by code points, as Python does.
-- Runtime: what the code uses of Python. `Result` has a value or the class of an exception;
--   `on_..._error` are the `except` clauses; `Json`, `Items` and `Fields` are the values that
--   `json.loads` gives, with objects in the order of their keys; `Dict` is a dict. `Platform` is a
--   parameter: binary64 arithmetic, `math`, `statistics.stdev`, `json.dumps` and SHA-256. An operation
--   of it that can raise returns a `Result`. `recursion_room` is how many nested calls of a recursive
--   function the stack has room for: it is one number for all calls, and a call counts as one, whatever
--   frames the interpreter gives it. Nothing is assumed of it, except where a theorem takes
--   `FloatOrder`: that `<=` is transitive and that `a < b` says `a <= b` and not `b <= a`, which holds
--   of binary64, NaN included; and the round trips of documents take that 0.0 is finite. `Decimals` is
--   `decimal.Decimal`, a parameter likewise.
-- AgentProtocol: apps/agent_protocol.py and apps/_support/wire.py, the checks of values, candidates and
--   their artifacts, and canonical documents. Changes has the paths at which two candidates differ,
--   Evaluations the decoders of forecasts, candidate runs and observer evaluations. `normalize_json_value`
--   runs on `recursion_room`, and raises RecursionError beyond it, as `normalize_decimals` does.
-- Journal: apps/_support/journal.py, records that carry their digest.
-- Information: src/metering/information.py, entropy, relative entropy, self-information and mutual
--   information. The series of `_relative_entropy_term` runs on fuel, 253 rounds from order 3, which are
--   the orders of `range(3, 256)`, so the fuel is the loop's own bound.
-- Population.Types, Schema, Candidates, Experiments, Evidence, Runs:
--   apps/population/population_protocol.py, a record for each normalized document and a decoder for each
--   kind of body and request; Documents holds the way back to JSON.
-- Population.Aggregate, Pareto, Archives, Allocations: apps/population/population_policy.py, from the
--   runs of a candidate to its aggregate, the Pareto frontier, the archive and the allocation of a parent.
-- Population.State: apps/population/population_state.py. `apply_record` is `_apply_record`, with one
--   function for each kind; State.Ledger holds `load_state`, `initialize` and `append_validated_record`.
-- Assay: apps/forecast_assay/agent_assay.py, the report of a candidate on the cases of an evaluation.
-- Selection: apps/selection_gate/report_validation.py and task_selection.py, the verification of two
--   reports and the decision between them. The gate reads the numbers of a document as decimals, so its
--   documents are `Json Decimal`.
-- Controller: apps/controller/contract.py, the replay of a generation from the request and the result of
--   the controller: Reports has the cases of a report, Traces the loop over the traces, Generations the
--   whole contract, Commands and Requested what it takes from the request and the reports. `equals` of
--   Runtime.Equality is Python's `==` on documents.
-- Driver: apps/population_driver. Types, Costs, Planner: planner.py, stopping.py and the parts of
--   population_driver_protocol.py that they use, with the timeout of apps/controller/contract.py; `plan` is
--   the next action of a replayed context. Attempts: the attempts of a round (machine.py, replay.py).
--   Reservations: the fields of a pending round that proposal calls and wall seconds are counted from, as
--   start_pending and run_evidence_adapter of machine.py and the retry of runtime.py write them and as
--   replay.py counts them; Budget has the driver's actions as a step relation on them. Ingestion:
--   ensure_population_record of machine.py; Chain: the record chain of population_driver_state.py and the
--   classification of a pending round in replay.py. Final: the planner once the ledger has final work. The
--   replay of whole rounds, the receipts and the processes that an action starts are not modelled.
-- Tests: a platform on natural numbers, a small ledger, and the theorems at it.
--
-- How the parts interact: a request is decoded to a body, `append_validated_record` attaches the digest
-- and the link to the head, `apply_record` checks and applies the record, and the record is written. A
-- later load replays the records from the header on, through the same `apply_record`.
--
-- Choices of the model. Numbers are unbounded, as Python's are. A `set` is a list that is asked only for
-- membership. Fractions are compared by cross multiplication. A dict keeps the order of its insertions.
-- Where Python mutates the state and then raises, the model returns the exception alone: the callers drop
-- the state. The ledger file is the list of its records, and whether a write succeeded is an argument of
-- the append.
--
-- Not modelled: the texts of messages; RecursionError outside the normalization of JSON values; files,
-- locks, symlinks and fsync; the SQLite index, the command lines and the history; fractions, decimals
-- and iterators as inputs of the measures; object keys that are not valid Unicode; the adapters,
-- harness, agents and connectors around the population, which run processes and call models; the older
-- fixture schemas of the assay and the gate.
pub mod Prelude
pub mod Runtime
pub mod Information
pub mod AgentProtocol
pub mod Population
pub mod Journal
pub mod Assay
pub mod Selection
pub mod Controller
pub mod Driver
pub mod Tests
