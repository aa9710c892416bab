-- ===== src/AssetHealth.antt =====
-- The health of assets, pieces of equipment with devices as their nodes:
-- src/modules/asset/asset-health.service.ts and src/modules/asset/asset.service.ts.
mod Assess
mod Nodes
mod Register
pub mod Pooling
pub mod Outcomes
unfoldable pub use Assess.*
unfoldable pub use Nodes.*
unfoldable pub use Register.*
