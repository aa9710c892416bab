-- ===== src/Lifecycle/Stages.antt =====
-- The stage that a score stands for.
use aio_t_cloud.Base.{ℕ, ◌+◌, ◌*◌, ◌≤◌, ◌<◌, none, ◌≡◌, ◌↔◌, ◌≢◌, arith}
use aio_t_cloud.Constants.{
  DeviceLifecycleStage, new, active, aging, maintenance_due, end_of_life, decommissioned,
}
use aio_t_cloud.Entities.{Device}
use aio_t_cloud.Health.{ms_per_day}
use aio_t_cloud.Lifecycle.{derive_stage}

-- How far a device is in its life.
abbrev pub wear : DeviceLifecycleStage → ℕ
wear new = 0
wear active = 1
wear aging = 2
wear maintenance_due = 3
wear end_of_life = 4
wear decommissioned = 5

-- A better score never means a later stage, for the same device at the same time; a retired device
-- stays retired; and NEW is kept for devices that were never seen, in their first 14 days.
pub derive_stage_lem :
    (d : Device) (score score' installed_at now : ℕ)
    → score ≤ score'
    → (wear (derive_stage d score' installed_at now) ≤ wear (derive_stage d score installed_at now))
      × ((derive_stage d score installed_at now ≡ decommissioned)
          ↔ (d.lifecycle_stage ≡ decommissioned))
      × ((derive_stage d score installed_at now ≡ new) ↔ (
          (d.lifecycle_stage ≢ decommissioned)
          × (now < installed_at + 14 * ms_per_day)
          × (d.last_seen_at ≡ none)))
unfolding derive_stage
derive_stage_lem d score score' installed_at now h = (ground arith, ground arith, ground arith)
