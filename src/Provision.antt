-- ===== src/Provision.antt =====
-- Registration and configuration of devices: `registerDevice`, `deleteDevice`, `getDevice`,
-- `getBootConfig` and `updateDeviceConfig` of src/modules/device/device.service.ts.
mod Register
mod Boot
mod Configure
pub mod Names
pub mod Channels
unfoldable pub use Register.*
unfoldable pub use Boot.*
unfoldable pub use Configure.*
