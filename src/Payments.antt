-- ===== src/Payments.antt =====
-- src/agents/payments_agent.py: the Payments mask.
pub mod Types
pub mod Gates
pub mod Actions
pub mod Interleaving
mod Tests
