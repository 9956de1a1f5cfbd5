-- ===== src/Examples.antt =====
-- Concrete inputs: each theorem with hypotheses or parameters, at one of them.
pub mod Lp
pub mod Settlement
pub mod Bets
pub mod Circuit
pub mod Agent
pub mod Time
pub mod Store
pub mod Commands
pub mod Events
pub mod Members
pub mod Runtime
pub mod Replies
pub mod Reports
pub mod Messages
