-- ===== src/Warning/Agreement.antt =====
-- Two routines judge readings: the listener that warns, and the lifecycle assessment that counts.
use aio_t_cloud.Base.{ℕ, ◌+◌, Option, none, some, List, [], ◌∷◌, ◌≡◌, arith, length}
use aio_t_cloud.Json.{Json}
use aio_t_cloud.Entities.{Device, TelemetryFieldDefinition, DeviceTelemetry}
use aio_t_cloud.Lifecycle.{BreachCounts, check_field, check_fields, check_records}
use aio_t_cloud.Warning.{check_threshold, field_warning, field_warnings, with_some}

field_warning-check_field :
    (d : Device) (payload : Json) (f : TelemetryFieldDefinition) (c : BreachCounts)
    → (check_field d payload f c).breaches
      ≡ length (with_some (field_warning d payload f) []) + c.breaches
unfolding check_field field_warning check_threshold
field_warning-check_field d payload f c = ground arith

length-with_some :
    {A : Type 0} (o : Option A) (xs : List A)
    → length (with_some o xs) ≡ length (with_some o []) + length xs
length-with_some none xs = omega arith
length-with_some (some x) xs = omega arith

-- A reading is warned about exactly if the assessment counts it as a breach: for every payload the
-- listener sends as many warnings as the count of breaches rises by.
pub field_warnings-check_fields :
    (d : Device) (payload : Json) (fs : List TelemetryFieldDefinition) (c : BreachCounts)
    → (check_fields d payload fs c).breaches ≡ length (field_warnings d payload fs) + c.breaches
unfolding check_fields field_warnings
field_warnings-check_fields d payload [] c = omega arith
field_warnings-check_fields d payload (f ∷ fs) c = omega (
  arith,
  field_warnings-check_fields d payload fs (check_field d payload f c),
  field_warning-check_field d payload f c,
  length-with_some (field_warning d payload f) (field_warnings d payload fs),
)

-- The warnings that samples caused when they arrived, if the device and its schema are what they
-- are now.
abbrev pub warnings_of : Device → List TelemetryFieldDefinition → List DeviceTelemetry → ℕ
warnings_of d schema [] = 0
warnings_of d schema (r ∷ rs) = length (field_warnings d r.payload schema) + warnings_of d schema rs

-- Over any samples, the breaches that the assessment counts are the warnings that the listener sends.
pub check_records-warnings_of :
    (d : Device) (schema : List TelemetryFieldDefinition) (rs : List DeviceTelemetry)
    (c : BreachCounts)
    → (check_records d schema rs c).breaches ≡ warnings_of d schema rs + c.breaches
unfolding check_records
check_records-warnings_of d schema [] c = omega arith
check_records-warnings_of d schema (r ∷ rs) c = omega (
  arith,
  check_records-warnings_of d schema rs (check_fields d r.payload schema c),
  field_warnings-check_fields d r.payload schema c,
)
