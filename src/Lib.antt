-- ===== src/Lib.antt =====
-- BANXE payment core: the advisory agents that stand between a customer's intent and the ports
-- which move money, and the screening and authorisation of card payments.
--
-- The program. Everything outside talks through abstract ports (src/ports, src/partner, src/wallet,
-- src/exchangeport). An agent (src/agents) passes an intent through a chain of gates, reserves its
-- cost in a budget window, calls its port, and records what it decided. The authorisation engine
-- (src/authorization) asks the compliance API (src/compliance_bridge) first and the ledger second.
-- The adapters (src/adapters) implement ports over HTTP; src/paymentology talks XML-RPC with the card
-- processor, both ways.
-- The settlement (src/settlement) parses the card scheme's files and compares their records with the
-- transactions of the house. The sandbox engine and the SEPA rail (src/payments) keep advisory
-- intents, one for each key.
--
-- The files, by the code they are about:
--   Lineage       src/agents/_lineage.py (what the three agents ask of its values is in
--                 Lineage/Conditions): ProcessRef, CostCap, CostWindow (Lineage/Window, its
--                 budget in Window/Budget; what it promises to actions that overlap is
--                 Window/Reservations, with its accounts in Window/Accounts, and Window/Desk is
--                 how an agent takes part), the record and the recorder (Lineage/Recorder), and
--                 InMemoryIdempotencyStore (Lineage/Idempotency).
--   Payments      src/agents/payments_agent.py: the mask and the intents (Payments/Types), _band,
--                 _cost_breaches, _step_up_required and _evaluate (Payments/Gates), _emit,
--                 _run_action, _suppress_duplicate, initiate_payment and validate_address
--                 (Payments/Actions). Payments/Interleaving has several payments in flight: an
--                 action is cut at the await of the partner, `begin` before it (here within
--                 `launch`), `answered` after it (within `land`).
--   Fx            src/agents/fx_exchange_agent.py: the same parts for the FX mask, with the settlement
--                 leg (`settled`, `deliver`), get_rate, place_order with its cache, and cancel_order
--                 (Fx/Actions). Fx/Interleaving has several orders in flight, cut at the awaits of the
--                 exchange and of the wallet.
--   Wallet        src/agents/wallet_agent.py: the same parts for the Wallet mask, with _read_ctx and
--                 _sensitive_ctx (Wallet/Contexts) and the eight operations (Wallet/Actions; as
--                 requests in Actions/Requests). Wallet/Interleaving has several in flight, cut at
--                 the await of the wallet.
--   Screening     src/compliance_bridge/screening.py: ComplianceScreening.screen.
--   Sandbox       src/payments/sandbox_engine.py (Sandbox/Engine) and
--                 src/payments/sepa_sandbox_rail.py (Sandbox/Rail), which consumes it, both over
--                 Sandbox/Registry; Sandbox/Histories has the tables of transitions of
--                 src/ports/payment_engine_port.py and src/ports/sepa_rail_port.py.
--   Authorization src/authorization/auth_engine.py: AuthEngine.authorise.
--   Settlement    src/settlement/ipm_parser.py (Settlement/Parser) and src/settlement/reconciler.py
--                 (Settlement/Reconciler); Settlement/Files reads a file and reconciles it.
--   Paymentology  src/paymentology: xmlrpc_builder.py (Paymentology/Builder) over elements
--                 (Paymentology/Xml), checksum.py (Paymentology/Checksum), remote_handler.py and
--                 webhook_server.py (Paymentology/Handler), adapter.py (Paymentology/Client).
--   Adapters      src/adapters: hyperswitch_adapter.py (Adapters/Hyperswitch), midaz_adapter.py
--                 (Adapters/Midaz; Midaz/Ledger puts it under the authorisation engine) and
--                 paymentology_adapter.py (Adapters/Issuer), over httpx (Adapters/Http);
--                 what all their operations have in common is in Adapters/Requests.
--   Ports         src/partner/partner_port.py, src/wallet/wallet_port.py and
--                 src/exchangeport/exchange_port.py: the value types, and each port as a record of
--                 its methods. The ports of src/ports are in Adapters/Ports, Sandbox/Engine/Port and
--                 Sandbox/Rail/Port, with their implementations.
--   Exec, Python, Json, Prelude  What the code uses of the language and of its library: methods as
--                 state with exceptions, texts, numbers, `json`, dictionaries.
-- Beside the definitions of a part stand its theorems, in modules named for what they show, and a
-- module Tests with runs at concrete inputs.
--
-- Conventions. A method is a function from the state to its result or exception and the state
-- after it, so that what was written before an exception stays written. A class's attributes are
-- the fields of a record. The ports and the recorder are parameters that may answer or raise
-- anything, and may depend on the calls made before. Python's integers are unbounded and are ℤ.
-- A Decimal is a ℤ that counts units of 10^-18, a float one that counts units of 2^-1074. No sum
-- is rounded: the context of 28 digits is not modelled. Where a Python value may be of another
-- type than its annotation says, the model follows the annotation, save for the fields that are taken
-- from JSON or XML-RPC answers.
--
-- Fuel. Only the printing of a number runs on fuel: one more than the number, and its digits are
-- fewer (Python/Printing). All other loops are over lists or over the elements
-- of a document.
--
-- Not modelled: HTTP (httpx), the parsing of XML (defusedxml), the HMAC, the files and the
-- environment, which are parameters; the routes and the set-up of the webhook's server; the locks
-- of CostWindow beyond that each of its methods is one step; the cancellation of a task, which is no
-- `Exception`; the values in the messages of some exceptions; logging.
--
pub mod Prelude
pub mod Exec
pub mod Lineage
pub mod Python
pub mod Ports
pub mod Payments
pub mod Json
pub mod Screening
pub mod Authorization
pub mod Sandbox
pub mod Fx
pub mod Settlement
pub mod Wallet
pub mod Paymentology
pub mod Adapters
