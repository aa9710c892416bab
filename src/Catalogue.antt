-- ===== src/Catalogue.antt =====
-- What devices refer to: src/modules/device-template, src/modules/factory and src/modules/dashboard. The
-- lists of a page are left out.
pub mod Links
pub mod Owners
mod Templates
mod Firmwares
mod Factories
mod Dashboards
unfoldable pub use Templates.*
unfoldable pub use Firmwares.*
unfoldable pub use Factories.*
unfoldable pub use Dashboards.*
