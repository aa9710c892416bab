-- ===== src/Health.antt =====
-- Health scores from 0 to 100: src/common/health-scoring.util.ts. Times are milliseconds, and every
-- quotient of the source is an exact fraction that is rounded once, where the source rounds a double.
pub mod Bounds
use aio_t_cloud.Base.{
  ℕ, ◌+◌, ◌-◌, ◌*◌, ◌/◌, Bool, true, false, Option, none, some, leb, if◌then◌else◌,
}
use aio_t_cloud.Constants.{DeviceStatus, online, offline}

-- `Math.round(n / d)` of a number that is not negative: halves round up.
unfoldable pub round_div : ℕ → ℕ → ℕ
round_div n d = (2 * n + d) / (2 * d)

-- `Math.round(clamp(100 * (1 - part / whole), 0, 100))`: a `part` beyond the whole leaves 0.
unfoldable pub percent_left : ℕ → ℕ → ℕ
percent_left part whole = round_div (100 * (whole - part)) whole

abbrev pub ms_per_hour : ℕ
ms_per_hour = 60 * 60 * 1000

abbrev pub ms_per_day : ℕ
ms_per_day = 24 * ms_per_hour

-- `MS_PER_DAY * DAYS_PER_MONTH`, of 30.44 days.
abbrev pub ms_per_month : ℕ
ms_per_month = 30440 * 24 * 60 * 60

-- `CONNECTIVITY_FULL_DEGRADE_HOURS`
abbrev pub connectivity_full_degrade : ℕ
connectivity_full_degrade = 72 * ms_per_hour

-- `computeAgeScore`, for an age in milliseconds (0 before the installation) and a lifespan in months.
-- The lifespan is positive, as the services' DTOs require.
unfoldable pub compute_age_score : ℕ → ℕ → ℕ
compute_age_score age expected_lifespan_months =
    percent_left age (ms_per_month * expected_lifespan_months)

-- The score of `computeConnectivityScore`.
unfoldable pub compute_connectivity_score : DeviceStatus → Option ℕ → ℕ → ℕ
compute_connectivity_score online last_seen_at now = 100
compute_connectivity_score offline none now = 100
compute_connectivity_score offline (some t) now = percent_left (now - t) connectivity_full_degrade

-- A number that may be negative.
pub record Signed : Type 0 where
  pub is_negative : Bool
  pub size : ℕ

-- `roundTo((a - b) / unit, 1)`, in tenths. `Math.round` takes the halves up, towards 0 below it.
unfoldable pub tenths : ℕ → ℕ → ℕ → Signed
tenths a b unit =
    if leb b a
    then record { is_negative = false; size = round_div (10 * (a - b)) unit }
    else record { is_negative = true; size = (2 * (10 * (b - a)) + unit - 1) / (2 * unit) }
