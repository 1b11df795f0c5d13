-- ===== src/Store.antt =====
-- apps/daemon/store: the chat database behind its operations.
pub mod Types
pub mod Db
pub mod Like
pub mod Meta
pub mod Chats
pub mod ChatQueries
pub mod Messages
pub mod MessageQueries
pub mod Consistent
pub mod Calls
pub mod Status
pub mod Atomic
pub mod ReadBack
pub mod Replay
pub mod Inserted
pub mod Merge
pub mod Pages
pub mod Flags
mod Tests
