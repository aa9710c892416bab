-- ===== src/Lifecycle/Scores.antt =====
-- The bounds of the factors and of the overall score.
use aio_t_cloud.Base.{ℕ, ◌≤◌, Option, none, some, List, [], ◌∷◌, arith, Bool-cases, inl, inr, leb}
use aio_t_cloud.Json.{Json}
use aio_t_cloud.Constants.{DeviceStatus, online, offline}
use aio_t_cloud.Entities.{Device, DeviceTelemetry, TelemetryFieldDefinition}
use aio_t_cloud.Database.{Store, World}
use aio_t_cloud.Health.{compute_connectivity_score, connectivity_full_degrade}
use aio_t_cloud.Health.Bounds.{compute_age_score-le, percent_left-le, round_div-le, round_div_mono}
use aio_t_cloud.Lifecycle.{
  BreachCounts, Factors, check_field, check_fields, check_records, no_checks,
  get_telemetry_breach_counts, telemetry_health_score, weighted_score, compute_factors,
  assess_device, assessment_of,
}

check_field-le :
    (d : Device) (payload : Json) (f : TelemetryFieldDefinition) (c : BreachCounts)
    → c.breaches ≤ c.total_checks
    → (check_field d payload f c).breaches ≤ (check_field d payload f c).total_checks
unfolding check_field
check_field-le d payload f c h = ground arith

check_fields-le :
    (d : Device) (payload : Json) (fs : List TelemetryFieldDefinition) (c : BreachCounts)
    → c.breaches ≤ c.total_checks
    → (check_fields d payload fs c).breaches ≤ (check_fields d payload fs c).total_checks
unfolding check_fields
check_fields-le d payload [] c h = h
check_fields-le d payload (f ∷ fs) c h =
    check_fields-le d payload fs (check_field d payload f c) (check_field-le d payload f c h)

check_records-le :
    (d : Device) (schema : List TelemetryFieldDefinition) (rs : List DeviceTelemetry)
    (c : BreachCounts)
    → c.breaches ≤ c.total_checks
    → (check_records d schema rs c).breaches ≤ (check_records d schema rs c).total_checks
unfolding check_records
check_records-le d schema [] c h = h
check_records-le d schema (r ∷ rs) c h =
    check_records-le d schema rs (check_fields d r.payload schema c)
      (check_fields-le d r.payload schema c h)

telemetry_health_score-le : (c : BreachCounts) → telemetry_health_score c ≤ 100
unfolding telemetry_health_score
telemetry_health_score-le c = elim (Bool-cases (leb c.total_checks 0)) [
  | inl e ↦ rw e (omega arith)
  | inr e ↦ rw e (percent_left-le c.breaches c.total_checks)
]

pub compute_connectivity_score-le :
    (status : DeviceStatus) (seen : Option ℕ) (now : ℕ)
    → compute_connectivity_score status seen now ≤ 100
unfolding compute_connectivity_score
compute_connectivity_score-le online seen now = omega arith
compute_connectivity_score-le offline none now = omega arith
compute_connectivity_score-le offline (some t) now = percent_left-le _ connectivity_full_degrade

weighted_score-le :
    (f : Factors)
    → f.age ≤ 100
    → f.connectivity ≤ 100
    → f.telemetry_health ≤ 100
    → weighted_score f ≤ 100
unfolding weighted_score
weighted_score-le f a c t = round_div-le _ 100 100 (omega arith)

-- The overall score never falls when a factor rises.
weighted_score_mono :
    (f g : Factors)
    → f.age ≤ g.age
    → f.connectivity ≤ g.connectivity
    → f.telemetry_health ≤ g.telemetry_health
    → weighted_score f ≤ weighted_score g
unfolding weighted_score
weighted_score_mono f g a c t = round_div_mono _ _ 100 (omega arith)

module _ {S : Store} where
  -- Of the checks that a device's recent telemetry is given, at most all are breached, and every
  -- factor and the overall score of an assessment lie between 0 and 100.
  pub assess_device_bounds :
      (now : ℕ) (d : Device) (w : World S)
      → let c = get_telemetry_breach_counts now d w in
        let f = compute_factors now d w in
        (c.breaches ≤ c.total_checks)
        × (f.age ≤ 100)
        × (f.connectivity ≤ 100)
        × (f.telemetry_health ≤ 100)
        × ((assess_device now d w).0.score ≤ 100)
  unfolding get_telemetry_breach_counts compute_factors assess_device assessment_of
  assess_device_bounds now d w =
      let age = compute_age_score-le _ _ in
      let connectivity = compute_connectivity_score-le d.status d.last_seen_at now in
      let telemetry = telemetry_health_score-le (get_telemetry_breach_counts now d w) in
      (
        check_records-le d _ _ no_checks (omega arith),
        age,
        connectivity,
        telemetry,
        weighted_score-le (compute_factors now d w) age connectivity telemetry,
      )
