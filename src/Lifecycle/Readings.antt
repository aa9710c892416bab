-- ===== src/Lifecycle/Readings.antt =====
-- Readings against warning bands: `getTelemetryBreachCounts`.
use aio_t_cloud.Base.{
  Text, ◌==◌, ℕ, suc, ◌-◌, ◌*◌, Bool, true, false, ◌&&◌, ◌||◌, Option, none, some, or_default,
  and_then, is_some, List, [], ◌∷◌, leb, if◌then◌else◌,
}
use aio_t_cloud.Number.{Number, less}
use aio_t_cloud.Dict.{lookup}
use aio_t_cloud.Json.{Json, num, member}
use aio_t_cloud.Entities.{Device, DeviceTelemetry, TelemetryFieldDefinition, DeviceWarningThreshold}
use aio_t_cloud.Database.{Store, World, template_of}
use aio_t_cloud.Health.{ms_per_day}

-- `{ breaches, totalChecks }`
pub record BreachCounts : Type 0 where
  pub breaches : ℕ
  pub total_checks : ℕ

-- `typeof value === 'number' ? value : undefined`
abbrev pub number_of : Json → Option Number
number_of (num n) = some n
number_of _ = none

-- `record.payload[field.key]`, if it is a number. A payload is an object; of one that is an array no
-- element is read.
abbrev pub reading_of : Text → Json → Option Number
reading_of key payload = and_then (member key payload) number_of

-- `a ?? b`
abbrev pub first_of {ℓ} : {A : Type ℓ} → Option A → Option A → Option A
first_of none b = b
first_of (some a) b = some a

-- `device.warningOverrides?.[field.key]`
abbrev pub override_of : Device → Text → Option DeviceWarningThreshold
override_of d key = and_then d.warning_overrides (lookup key)

-- `override?.enabled === false`
abbrev pub is_disabled : Option DeviceWarningThreshold → Bool
is_disabled none = false
is_disabled (some t) = elim t.enabled [ none ↦ false | some true ↦ false | some false ↦ true ]

-- `override?.min ?? field.warningMin`
abbrev pub lower_bound : TelemetryFieldDefinition → Option DeviceWarningThreshold → Option Number
lower_bound f t = first_of (and_then t (λ o. o.min)) f.warning_min

-- `override?.max ?? field.warningMax`
abbrev pub upper_bound : TelemetryFieldDefinition → Option DeviceWarningThreshold → Option Number
upper_bound f t = first_of (and_then t (λ o. o.max)) f.warning_max

-- `(min !== undefined && value < min) || (max !== undefined && value > max)`
abbrev pub is_outside : Option Number → Option Number → Number → Bool
is_outside lower upper value =
    elim lower [ none ↦ false | some m ↦ less value m ]
    || elim upper [ none ↦ false | some m ↦ less m value ]

abbrev pub add_check : Bool → BreachCounts → BreachCounts
add_check breach c = record {
  breaches = if breach then suc c.breaches else c.breaches;
  total_checks = suc c.total_checks;
}

-- The body of the inner loop.
unfoldable pub check_field : Device → Json → TelemetryFieldDefinition → BreachCounts → BreachCounts
check_field d payload f c = elim (reading_of f.key payload) [
  | none ↦ c
  | some value ↦
      let t = override_of d f.key in
      let lower = lower_bound f t in
      let upper = upper_bound f t in
      if is_disabled t
      then c
      else if is_some lower || is_some upper
      then add_check (is_outside lower upper value) c
      else c
]

-- The inner loop.
unfoldable pub check_fields :
    Device → Json → List TelemetryFieldDefinition → BreachCounts → BreachCounts
check_fields d payload [] c = c
check_fields d payload (f ∷ fs) c = check_fields d payload fs (check_field d payload f c)

-- The outer loop.
unfoldable pub check_records :
    Device → List TelemetryFieldDefinition → List DeviceTelemetry → BreachCounts → BreachCounts
check_records d schema [] c = c
check_records d schema (r ∷ rs) c = check_records d schema rs (check_fields d r.payload schema c)

abbrev pub no_checks : BreachCounts
no_checks = record { breaches = 0; total_checks = 0 }

-- `TELEMETRY_ASSESSMENT_WINDOW_DAYS`, `TELEMETRY_ASSESSMENT_SAMPLE_LIMIT`
abbrev pub telemetry_assessment_window : ℕ
telemetry_assessment_window = 30 * ms_per_day

abbrev pub telemetry_assessment_sample_limit : ℕ
telemetry_assessment_sample_limit = 500

module _ {S : Store} where
  -- The samples of the last 30 days, newest first, at most 500.
  abbrev pub recent_telemetry : ℕ → Device → World S → List DeviceTelemetry
  recent_telemetry now d w =
      S.telemetry_repository.find_page
        (λ r. r.device_id == d.id && leb (now - telemetry_assessment_window) r.recorded_at)
        (λ r. r.recorded_at) telemetry_assessment_sample_limit w.telemetry

  -- `device.template?.telemetrySchema`, where a missing schema has no fields.
  abbrev pub schema_of : Device → World S → List TelemetryFieldDefinition
  schema_of d w = or_default (and_then (template_of d w) (λ t. t.telemetry_schema)) []

  -- `getTelemetryBreachCounts`
  unfoldable pub get_telemetry_breach_counts : ℕ → Device → World S → BreachCounts
  get_telemetry_breach_counts now d w =
      check_records d (schema_of d w) (recent_telemetry now d w) no_checks
