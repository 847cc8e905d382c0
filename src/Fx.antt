-- ===== src/Fx.antt =====
-- src/agents/fx_exchange_agent.py: the FX mask.
pub mod Types
pub mod Gates
pub mod Contexts
pub mod Actions
pub mod Interleaving
mod Tests
