-- ===== src/Desktop.antt =====
-- apps/desktop: the logic of the desktop client that does not depend on the toolkit.
pub mod Media
pub mod Splice
pub mod Find
pub mod Emoji
pub mod Chats
pub mod Conversation
pub mod Screen
pub mod Presence
mod Tests
mod WindowTests
