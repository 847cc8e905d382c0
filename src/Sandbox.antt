-- ===== src/Sandbox.antt =====
-- The advisory payment engine and SEPA rail: src/payments/sandbox_engine.py and
-- src/payments/sepa_sandbox_rail.py, over src/ports/payment_engine_port.py and
-- src/ports/sepa_rail_port.py.
pub mod Registry
pub mod Engine
pub mod Histories
pub mod Rail
mod Tests
