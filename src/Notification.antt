-- ===== src/Notification.antt =====
-- The delivery of notifications: src/modules/notification/notification.service.ts and the two senders in
-- src/modules/notification/senders. `now` is what the clock shows in the call.
pub mod Sending
pub mod History
pub mod ReadMarks
pub mod Tokens
mod Rows
mod Templates
mod Senders
mod Fanout
mod Linking
mod Inbox
unfoldable pub use Rows.*
unfoldable pub use Templates.*
unfoldable pub use Senders.*
unfoldable pub use Fanout.*
unfoldable pub use Linking.*
unfoldable pub use Inbox.*
