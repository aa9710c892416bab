-- ===== src/AssetHealth/Outcomes.antt =====
-- What the operations on nodes change, and the bounds of an asset's score.
use aio_t_cloud.Base.{
  Text, ◌==◌, eq_iff, ℕ, ◌≤◌, true, ◌&&◌, Option, none, some, or_default, ◌≡◌, ◌↔◌, refl, arith,
  Bool-cases, inl, inr, is_empty, ltb,
}
use aio_t_cloud.Constants.{unknown}
use aio_t_cloud.Entities.{Device, Asset}
use aio_t_cloud.Repository.{patch}
use aio_t_cloud.Response.{ok, Response-cases}
use aio_t_cloud.Database.{Store, World, device_row}
use aio_t_cloud.Device.Presence.{ChangesOnly}
use aio_t_cloud.Health.Bounds.{compute_age_score-le, percent_left-le, round_div-le}
use aio_t_cloud.AssetHealth.{
  AssetFactors, AssetAssessment, Pool, pooled_connectivity, pooled_telemetry, asset_score,
  asset_factors, asset_score_of, derive_status, asset_assessment, assess_asset, nodes_of,
  attach_target, attach_node,
}

pooled_connectivity-le : (p : Pool) → pooled_connectivity p ≤ 100
unfolding pooled_connectivity
pooled_connectivity-le p = elim (Bool-cases (ltb 0 p.connectivity_weight)) [
  | inl heavy ↦ rw heavy (round_div-le _ p.connectivity_weight 100 (omega arith))
  | inr light ↦ rw light (omega arith)
]

pooled_telemetry-le : (p : Pool) → pooled_telemetry p ≤ 100
unfolding pooled_telemetry
pooled_telemetry-le p = elim (Bool-cases (ltb 0 p.weighted_checks)) [
  | inl heavy ↦ rw heavy (percent_left-le p.weighted_breaches p.weighted_checks)
  | inr light ↦ rw light (omega arith)
]

asset_score-le :
    (f : AssetFactors)
    → f.age ≤ 100
    → f.connectivity ≤ 100
    → f.telemetry_health ≤ 100
    → asset_score f ≤ 100
unfolding asset_score
asset_score-le f a c t = round_div-le _ 100 100 (omega arith)

-- The device as `attachNode` leaves it.
abbrev pub attached : Text → Option ℕ → Device → Device
attached asset_id weight d = record d {
  asset_id = some asset_id;
  health_weight = or_default weight d.health_weight;
}

module _ {S : Store} where
  -- The factors of an asset and its score lie between 0 and 100; the asset has no score and the status
  -- UNKNOWN exactly if no device is attached to it; and the row of the asset gets this score and status.
  pub assess_asset_bounds :
      (now : ℕ) (a : Asset) (w : World S)
      → ((assess_asset now a w).0.factors.age ≤ 100)
        × ((assess_asset now a w).0.factors.connectivity ≤ 100)
        × ((assess_asset now a w).0.factors.telemetry_health ≤ 100)
        × (or_default (assess_asset now a w).0.score 0 ≤ 100)
        × (((assess_asset now a w).0.score ≡ none) ↔ (is_empty (nodes_of a w) ≡ true))
        × (((assess_asset now a w).0.status ≡ unknown) ↔ (is_empty (nodes_of a w) ≡ true))
        × ((i : Text)
            → S.asset_repository.row (assess_asset now a w).1.assets i
              ≡ patch
                  (λ x. x.id == a.id)
                  (λ x. record x {
                    health_index = (assess_asset now a w).0.score;
                    health_status = (assess_asset now a w).0.status;
                    health_assessed_at = some now;
                  })
                  (S.asset_repository.row w.assets i))
  unfolding assess_asset asset_assessment asset_factors asset_score_of derive_status
  assess_asset_bounds now a w =
      let age = compute_age_score-le _ _ in
      let connectivity = pooled_connectivity-le _ in
      let telemetry = pooled_telemetry-le _ in
      (
        age,
        connectivity,
        telemetry,
        ground (arith, asset_score-le (asset_factors now a w) age connectivity telemetry),
        ground arith,
        ground arith,
        λ i. S.asset_repository.row-update (λ x. x.id == a.id) _ w.assets i (λ r. refl),
      )

  attach_target-ok :
      (user_id asset_id id : Text) (w : World S) (a : Asset) (d : Device)
      → attach_target user_id asset_id id w ≡ ok (a, d)
      → (S.asset_repository.row w.assets a.id ≡ some a)
        × (a.id ≡ asset_id)
        × (a.user_id ≡ user_id)
        × (device_row d.id w ≡ some d)
        × (d.id ≡ id)
        × (d.user_id ≡ user_id)
  unfolding attach_target
  attach_target-ok user_id asset_id id w a d h = ground (
    arith,
    S.asset_repository.find_one-some (λ x. x.id == asset_id && x.user_id == user_id) w.assets a,
    S.device_repository.find_one-some (λ x. x.id == id && x.user_id == user_id) w.devices d,
    eq_iff a.id asset_id,
    eq_iff a.user_id user_id,
    eq_iff d.id id,
    eq_iff d.user_id user_id,
  )

  -- An attachment that succeeds joins a stored device of the caller to a stored asset of the caller, with the new
  -- weight if one was given, and changes no other device.
  pub attach_node-ok :
      (now : ℕ) (user_id asset_id id : Text) (weight : Option ℕ) (w : World S) (r : AssetAssessment)
      → (attach_node now user_id asset_id id weight w).0 ≡ ok r
      → (a : Asset) × (d : Device) × (S.asset_repository.row w.assets a.id ≡ some a)
        × (a.id ≡ asset_id)
        × (a.user_id ≡ user_id)
        × (d.id ≡ id)
        × (d.user_id ≡ user_id)
        × (device_row d.id w ≡ some d)
        × ChangesOnly d
            (attached asset_id weight d)
            w
            (attach_node now user_id asset_id id weight w).1
  unfolding attach_node assess_asset
  attach_node-ok now user_id asset_id id weight w r h =
      elim (Response-cases (attach_target user_id asset_id id w)) [
        | inr (c, m, e) ↦ absurd (ground arith)
        | inl ((a, d), e) ↦
            let (there, named, owned, stored, is, owned_device) =
              attach_target-ok user_id asset_id id w a d e in
            (
              a,
              d,
              there,
              named,
              owned,
              is,
              owned_device,
              stored,
              λ i.
                  ground (arith, S.device_repository.row-save (attached a.id weight d) w.devices i),
            )
      ]
