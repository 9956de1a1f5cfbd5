-- ===== src/Agent.antt =====
-- Parts of the agent around the ledger: the write queue for outages, the outbound guard, the
-- heartbeat, the inboxes between agents, the memory filter and the reward for an introduction.
pub mod Outbox
pub mod Fanout
pub mod Heartbeat
pub mod Inbox
pub mod MemoryPolicy
pub mod SelfIntro
pub mod TokenWatch
pub mod Sessions
pub mod SelfHeal
pub mod ReplyContext
pub mod Replies
