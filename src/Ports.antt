-- ===== src/Ports.antt =====
-- The ports and their value types: src/partner/partner_port.py, src/wallet/wallet_port.py and
-- src/exchangeport/exchange_port.py. Their adapters live outside the repository's core.
mod Partner
mod Wallet
mod Exchange
pub use Partner.*
pub use Wallet.*
pub use Exchange.*
