-- ===== src/Paymentology.antt =====
-- src/paymentology: the client of the Companion API and the handler of its callbacks.
pub mod Xml
pub mod Builder
pub mod Checksum
pub mod Handler
pub mod Client
mod Tests
