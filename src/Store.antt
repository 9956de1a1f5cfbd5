-- ===== src/Store.antt =====
-- The stores of core/store/ outside the points economy, and the names under which members are shown.
pub mod Batch
pub mod Meetups
pub mod Members
pub mod Messages
pub mod Memories
pub mod Like
pub mod Fragments
pub mod Names
