-- ===== src/Settlement.antt =====
-- src/settlement: the IPM files of the card scheme and their reconciliation.
pub mod Parser
pub mod Reconciler
pub mod Files
mod Tests
