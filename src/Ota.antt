-- ===== src/Ota.antt =====
-- Firmware updates over the air: src/modules/device/device-ota.service.ts. `now` is what `new Date()`
-- returns in the call.
mod Trigger
mod Report
pub mod Laws
pub mod Runs
pub mod Reports
unfoldable pub use Trigger.*
unfoldable pub use Report.*
