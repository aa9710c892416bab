-- ===== src/Device.antt =====
-- The devices' service, src/modules/device/device.service.ts. `now` is what `new Date()` returns in
-- the call, and `p` prints values.
pub mod Presence
pub mod Channels
pub mod Offline
pub mod Strangers
pub mod Rules
pub mod Alarms
mod Unclaimed
mod Ingest
mod Sweep
mod Alerts
unfoldable pub use Unclaimed.*
unfoldable pub use Ingest.*
unfoldable pub use Sweep.*
unfoldable pub use Alerts.*
