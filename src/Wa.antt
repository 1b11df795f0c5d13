-- ===== src/Wa.antt =====
-- apps/daemon/wa: the WhatsApp session and the state that it keeps.
pub mod Sync
pub mod Presence
pub mod Session
pub mod Quiet
pub mod Upholds
pub mod Actions
pub mod Receipts
pub mod Names
pub mod MarkRead
pub mod Proto
pub mod Content
pub mod Connection
pub mod Whatsmeow
pub mod Demo
pub mod Lookup
pub mod Rows
pub mod Reply
pub mod Send
pub mod History
pub mod Reconcile
pub mod Download
pub mod Contacts
mod Tests
mod SendTests
mod ConnectionTests
