-- ===== src/Lib.antt =====
-- ProofAlpha: a model of the parts of src/engine that decide whether, when and how an order is
-- made, of what is kept about it, and of when a strategy artifact is taken out of service.
--
-- How the parts interact. A portfolio plan yields order intents. An intent is validated and given
-- an identifier that hashes its content; the order manager turns it into an order record, once for
-- each client order id, and the record moves through a state machine. Before it is sent, the risk
-- state, the checks before a trade and the guards must clear it, and the translator must bring it
-- within the exchange's rules. What happens to orders is written to an event ledger, from which
-- the state is rebuilt and compared with the gateway's, and a repair plan says what to do where
-- they differ. The universe says which symbols the executor may trade. Strategies and
-- their parameters come from a search, layer by layer. Above this, the governance of an artifact watches its health, decides to keep,
-- pause or retire it, and journals the decision.
--
-- Files, and the code they model (paths from the repository's root):
--   Orders      src/engine/execution/order_state.py (State: `apply_transition` and the table of
--               transitions), order_intent.py and idempotency.py (Intent), order_manager.py
--               (Manager: `create_order`, `transition`, `get`, a manager being passed and
--               returned). Calls are the sequences of calls that a client may make; Lifecycle,
--               Gates, Consistency, Idempotency and IntentLaws hold the proofs.
--   Risk        risk_state.py (State), pretrade_checks.py (Pretrade, Clearance),
--               executor_risk_manager.py, execution_tactics.py and executor_strategy_manager.py
--               (Executor, Approval), circuit_breakers.py, funding_guard.py, liquidation_guard.py
--               and margin_leverage_manager.py (Guards, GuardLaws), cancel_replace_manager.py
--               (CancelReplace, Budget), all of src/engine/execution.
--   Venue       src/engine/data/exchange_rules_cache.py (Rules: the parsed rules and their lookup),
--               src/engine/execution/venue_order_request.py (Request), and
--               src/engine/execution/venue_translator (Translator: `translate`, its rejections in
--               `reasons_with` and its order in `order_with`). Sendable, Translation and Validity
--               hold the proofs.
--   Ledger      src/engine/execution/ledger.py (Event, Projection) and state_projection.py
--               (Projection: `rebuild_state_projection` over a list of events),
--               reconciliation_repair.py (Repair). Replay and Redelivery are about rebuilding the
--               state, Plan, Coverage and Duplicates about the repair plan.
--   Store       src/engine/memory/store.py: the table `execution_events` and `append_execution_event`
--               (Events), and `rebuild_execution_projections` (Tables, Rebuild). Chain and
--               Commitment are about the digests, Fills, Positions and Replayed about the rebuilt
--               tables.
--   Reconcile   src/engine/execution/reconciliation.py: the accounting tables rebuilt from the journal
--               (Ledgers, Accounting, Snapshots, Phase3), the local projection (Local), the gateway's
--               snapshot (Gateway, Payload), the blockers (Blockers) and the response (Run), which
--               applies human overrides. Poison, Matched, SafeActions and Response hold the proofs.
--               What SQLite groups fills by is an argument, `key`, and so are the digests of the tables
--               (`Stamps`).
--   Governance  src/engine/governance/lifecycle.py: Runbooks (the table and the closing evidence),
--               Revalidation, Policy (`evaluate_lifecycle_policy`), Journal
--               (`apply_lifecycle_decision` on four tables of src/engine/memory/store.py) and Status
--               (`lifecycle_status`). Targets, Alerts, Closeout, Carried, Newest and ReadBack hold the
--               proofs.
--   Universe    src/engine/universe: manifest.py and filters.py (Manifest), admission.py, demotion.py
--               and quarantine.py (Decisions). History takes the manifest as a table of states,
--               Safety is about the decisions carried out on it.
--   Portfolio   src/engine/portfolio: symbol_target.py (Target), rebalance_policy.py (Rebalance)
--               and portfolio_state_machine.py (States), each with its proofs, and of allocator.py
--               `apply_human_override` (OverrideTables, Override, OverrideLaws) and
--               `build_portfolio_plan` (PlanTables, Allocate, Plan; PlanLimits and Accepted prove
--               what an accepted plan guarantees). The answer of `paper_authority_decision`, which
--               is not modelled, is a parameter of the plan. target_portfolio.py (TargetPortfolio,
--               Targeted) makes targets of its allocations; risk_budget.py (RiskBudget; RiskLimits and
--               BudgetPassed hold the proofs) and delta_order_plan.py (Delta, DeltaLaws, Reached) judge the
--               targets of the symbols and turn them into order intents.
--   Optimizer   src/engine/optimizer: experiment_budget.py, stop_policy.py and overfit_budget.py
--               (Budgets, with the proofs in Within), grid.py (Grid) over the parameter ranges of
--               src/engine/config/models.py (Ranges; `values` is a loop on 100,001 rounds of fuel,
--               one more than its guard lets go on), phases.py over the records of
--               config/models.py (Models, Phases, Pipeline). Ticks, Combinations, Growth and Best
--               hold the proofs. The evaluator and the validation executor are functions that the
--               runner is given.
--   Prelude, Python  what the parts share: tests, lists, dicts and integers over the native
--               numbers, and the runtime.
--
-- The runtime. IEEE floats, the texts of numbers, `Decimal` rounding, ISO times and SHA-256 of a
-- JSON text are operations of a record (Python/Runtime, and `Decimals` of Venue/Rules), about which
-- nothing is assumed but what a theorem names: `IsOrdered` states what the comparisons of floats
-- satisfy. Python/Fixed is a concrete runtime, fixed-point numbers in units of 10⁻⁹ with a
-- polynomial hash, on which the definitions run and the theorems are applied. Python integers are
-- unbounded, and so are the integers here.
--
-- Conventions. A dict is an association list in insertion order; a set of texts is a list that is
-- searched, and `sorted(set(xs))` is computed. A call that may raise returns `Result`, or the
-- component's own sum of replies. Keyword arguments are records. A time is a number of
-- microseconds, which is exact for the differences of `datetime`s that the guards compare. A list
-- of reasons built by `append` is a concatenation of lists of at most one element, in the code's
-- order. The loop of `ParameterRange.values` is the only definition on fuel; every other loop of the
-- code runs over a list. In the tables of the
-- database the rows stand in insertion order; where SQLite leaves the order of equal keys open,
-- the choice is an argument (`Ties`), and so are the random identifiers and the current time.
--
-- Not modelled: reading and writing of files and of the database beyond the tables above, the
-- command line, the paper-trading daemons with their portfolio loop, and the research side
-- (strategies, backtests, validation statistics, the agent).
pub mod Prelude
pub mod Python
pub mod Orders
pub mod Risk
pub mod Ledger
pub mod Store
pub mod Reconcile
pub mod Governance
pub mod Venue
pub mod Universe
pub mod Portfolio
pub mod Optimizer
