-- ===== src/Lineage.antt =====
-- src/agents/_lineage.py: the primitives that the three masks share.
mod Types
pub mod Window
mod Idempotency
pub mod Port
mod Recorder
mod Conditions
pub use Types.*
unfoldable pub use Types.{resolved}
pub use Window.{CostWindow, empty_window}
unfoldable pub use Window.{add, try_reserve, release}
pub use Idempotency.{Store, has_seen-mark_seen, prior_result-mark_seen}
unfoldable pub use Idempotency.{has_seen, mark_seen, prior_result}
pub use Recorder.{Sink, Journal}
unfoldable pub use Recorder.{persist}
pub use Conditions.{is_none, reviewer, joined, Accepts, in_range_iff, resolved_iff, clears_iff}
unfoldable pub use Conditions.{in_range, clears}
