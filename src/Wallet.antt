-- ===== src/Wallet.antt =====
-- src/agents/wallet_agent.py: the Wallet mask.
pub mod Types
pub mod Contexts
pub mod Gates
pub mod Actions
pub mod Interleaving
mod Tests
