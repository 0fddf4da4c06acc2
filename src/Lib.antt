-- ===== src/Lib.antt =====
-- Verification of the execution layer: the safety core of `signald`, between the research decisions
-- that it ingests and the broker that it sends orders to.
--
-- A request to trade passes the house risk gate, which says ALLOW, REDUCE or BLOCK; the sized order
-- passes the guard, which takes the gate's verdict; it is sent by the order manager, which writes a
-- durable row before it calls the broker and asks before it sends again; the broker's trade updates
-- are folded into the state of each order; the halt machine and the drawdown ladder say when nothing
-- new may be opened. In front of this stand the inbox, which lets an artifact of the research layer in
-- once, and the contract that the artifact must meet; beside it the audit ledger, the signed control
-- API, the reconciliation with the broker, the protective stops and the flatten at the close; above
-- it the checklist for going live and the monthly review of the sleeves.
--
-- The parts, and the code that each follows:
--   Prelude       tests, lists, signed integers, floats, dicts and results that the others share
--   Json          decoded JSON values, and the text functions of Python's runtime (`Text`)
--   Order.State   signald/order/state.py: `OrderStateManager`. Types has the statuses and records,
--                 Coerce the `_opt_*` functions, Apply the evaluation of one event up to its commit
--                 (`judge`, with `_target_status` and `_apply_fill`), Stream the operations `apply`,
--                 `open_orders` and `restore`. Judged, Evolution, Effect and Invariant hold proofs.
--   Order.Intent  signald/order/guard.py: `OrderIntent`
--   Order.Prices  signald/order/prices.py: `tick_for`, `round_price`, `price_is_on_grid`
--   Order.Guard   signald/order/guard.py: the twelve checks and `guard`; proofs in Admission
--   Order.Manager signald/order/manager.py: `OrderManager`. Session has the log of one session,
--                 Broker the reading of the broker's bodies, Actions `submit`, `submit_with_retry`,
--                 `query`, `cancel`, `replace` and `resolve`, Pending the recovery sweep. Quiet,
--                 Protocol, Recovery and Retried hold proofs.
--   Order.Halts   signald/order/halts.py: `HaltMachine`; proofs in Cooldown, ClosedOut and Repeats
--   Risk.Ladder   signald/risk/ladder.py: `rung_for`; proofs in Order
--   Risk.State    signald/risk/state.py: positions, book, market and request
--   Risk.Sizing   signald/risk/sizing.py: `kelly_cap`, `size`; proofs in Caps
--   Risk.Gate     signald/risk/gate.py. Context has what a check reads, Projection the projected
--                 notional, Capital, Market and Data the sixteen checks, Evaluate the table and
--                 `evaluate`. Sized, Bounds, Verdict, Limits and Closed hold proofs.
--   Order.Policy  signald/order/policy.py: `plan_entry`, `plan_exit`; proofs in Children
--   Order.Stops   signald/order/stops.py: `protective_limit`, `plan_stop`, `protective_orders`, and
--                 `client_order_id` of signald/order/guard.py; proofs in SafeSide
--   Order.Flatten signald/order/flatten.py: `is_flat`, `flatten_plan`, `verify_flat`; proofs in Coverage
--                 and Verified
--   Contract      signald/contracts.py: `validate_envelope` and its checks, with the vocabulary of
--                 signald/schema.py; proofs in Versions, Claims and Offsets
--   Store.Inbox   signald/inbox.py: `admit`, `commit`, `pending`, `quarantine`; proofs in Once, Pending, Repeats
--   Store.Audit   signald/stores.py: `AuditChain`; proofs in Chain and Tamper
--   Store.Journal signald/stores.py: `SignalStore`, `Journal`, `CandidateStore`, `MonitorStore`; proofs
--                 in Expiry
--   Store.KillSwitch signald/kill_switch.py; proofs in Episodes
--   Api.Signing   signald/api/signing.py: `NonceStore`, `Authenticator`; proofs in Claims, Replay and
--                 Restart
--   Reconcile     signald/reconcile.py: `reconcile`; proofs in InSync
--   Promotion     signald/promotion.py: `opt_ins`, `promotion_report`, `hard_cap_violation`; proofs in
--                 Ready
--   Lineage       signald/lineage.py: `propose_allocation`, `kill_shrink_decision`; Trials the
--                 registry, Comparison the claim of `compare`; proofs in Bounds, Verdicts and Claims
--   Watchdog      signald/watchdog.py: the heartbeat's age and its check
--   Sleeves       signald/sleeves: router.py, swing.py, intraday.py and budgets.py; proofs in Room
--
-- State is passed explicitly. The order states are a record with a dict of orders, the executions, the
-- anomalies and the audit rows; the manager is an action on a log of everything it did to the store,
-- the broker and the audit, and the broker and the clock may answer by any function of that log. A
-- raised exception is a value.
--
-- Numbers. Python's integers are unbounded. A float is NaN, an infinity or a multiple of 2^-1074, which
-- every finite binary64 value is, so comparison, negation, minimum and maximum are exact; the operations
-- that round (`Arith`) are parameters, and a theorem that needs more of them names it (`LawfulArith`, `IsReal`); `sum` is among them, for Python compensates it.
-- Loops are recursion on the list or on the number of attempts that is left: nothing runs on fuel.
--
-- Parameters for what is not in the repository: the text functions of the runtime (`Text`), rounding
-- arithmetic (`Arith`), date parsing and the search of a pattern in a text (`Runtime`), the broker's
-- transport and the clock (`World`), what the guard calls of the runtime (`GuardRuntime`), the hashes
-- and the JSON writer (`Digest`, `Crypto`), what the contract reads of dates and UUIDs (`Wire`). A
-- store's file is the list of its decoded lines, so what is written is what is read; whether two
-- processes may write at once is stated where it matters.
--
-- Not modelled: the texts of reasons and the journal's snapshots, which are only read by people; the
-- files behind the stores; the engine, the daemon, the servers and the command line, which move data
-- between these parts; the estimators of tail risk and volatility, whose results are fields of the
-- gate's context; of the lineage the scorecard's metrics and the correlations; the parsing of a research
-- decision's body; a line of the nonce journal that is JSON and no object, on which its reading raises.
pub mod Prelude
pub mod Json
pub mod Order
pub mod Risk
pub mod Api
pub mod Contract
pub mod Store
pub mod Reconcile
pub mod Promotion
pub mod Lineage
pub mod Sleeves
pub mod Watchdog
