-- ===== src/AssetHealth/Assess.antt =====
-- AssetHealthService. Health weights are in millionths.
use aio_t_cloud.Base.{
  Text, codes, ◌==◌, ℕ, ◌+◌, ◌-◌, ◌*◌, min, true, false, ◌&&◌, Option, none, some, or_default, List,
  [], ◌∷◌, leb, ltb, is_empty, if◌then◌else◌,
}
use aio_t_cloud.Constants.{
  DeviceStatus, AssetHealthStatus, healthy, warning, critical, unknown, not_found,
}
use aio_t_cloud.Entities.{Device, Asset}
use aio_t_cloud.Response.{Response, ok, fail}
use aio_t_cloud.Scope.{AccessScope, in_scope}
use aio_t_cloud.Health.{
  round_div, percent_left, compute_age_score, compute_connectivity_score, ms_per_month, Signed,
  tenths,
}
use aio_t_cloud.Lifecycle.{BreachCounts, get_telemetry_breach_counts}
use aio_t_cloud.Database.{Store, World}

-- `DEFAULT_EXPECTED_LIFESPAN_MONTHS`
abbrev pub default_asset_lifespan_months : ℕ
default_asset_lifespan_months = 60

-- `AssetHealthNodeBreakdown`
pub record NodeBreakdown : Type 0 where
  pub device_id : Text
  pub name : Text
  pub status : DeviceStatus
  pub health_weight : ℕ
  pub breaches : ℕ
  pub total_checks : ℕ

-- The scores of the three factors.
pub record AssetFactors : Type 0 where
  pub age : ℕ
  pub connectivity : ℕ
  pub telemetry_health : ℕ

-- The sums of the loop over the nodes, and its breakdown.
pub record Pool : Type 0 where
  pub weighted_connectivity : ℕ
  pub connectivity_weight : ℕ
  pub weighted_breaches : ℕ
  pub weighted_checks : ℕ

-- `AssetHealthAssessmentDto`; months are in tenths, and the texts for people are left out.
pub record AssetAssessment : Type 0 where
  pub asset_id : Text
  pub status : AssetHealthStatus
  pub score : Option ℕ
  pub installed_at : ℕ
  pub expected_lifespan_months : ℕ
  pub age_months : ℕ
  pub remaining_lifespan_months : Signed
  pub factors : AssetFactors
  pub nodes : List NodeBreakdown
  pub assessed_at : ℕ

abbrev pub empty_pool : Pool
empty_pool = record {
  weighted_connectivity = 0;
  connectivity_weight = 0;
  weighted_breaches = 0;
  weighted_checks = 0;
}

-- The body of the loop, for a node with these counts.
unfoldable pub add_node : ℕ → Device → BreachCounts → Pool → Pool
add_node now d c p = record {
  weighted_connectivity =
      p.weighted_connectivity
      + compute_connectivity_score d.status d.last_seen_at now * d.health_weight;
  connectivity_weight = p.connectivity_weight + d.health_weight;
  weighted_breaches = p.weighted_breaches + c.breaches * d.health_weight;
  weighted_checks = p.weighted_checks + c.total_checks * d.health_weight;
}

-- `connectivityScore`
unfoldable pub pooled_connectivity : Pool → ℕ
pooled_connectivity p =
    let score =
      round_div (min p.weighted_connectivity (100 * p.connectivity_weight)) p.connectivity_weight in
    if ltb 0 p.connectivity_weight then score else 100

-- `telemetryScore`
unfoldable pub pooled_telemetry : Pool → ℕ
pooled_telemetry p =
    let score = percent_left p.weighted_breaches p.weighted_checks in
    if ltb 0 p.weighted_checks then score else 100

-- `Math.round` of the weighted sum; the weights are 0.2, 0.3 and 0.5.
unfoldable pub asset_score : AssetFactors → ℕ
asset_score f = round_div (20 * f.age + 30 * f.connectivity + 50 * f.telemetry_health) 100

-- `deriveStatus`; without nodes there is no score.
unfoldable pub derive_status : Option ℕ → AssetHealthStatus
derive_status none = unknown
derive_status (some score) =
    if leb 80 score then healthy else if leb 50 score then warning else critical

abbrev pub asset_installed_since : Asset → ℕ
asset_installed_since a = or_default a.installed_at a.created_at

abbrev pub asset_lifespan : Asset → ℕ
asset_lifespan a = or_default a.expected_lifespan_months default_asset_lifespan_months

-- `{ healthIndex: score, healthStatus: status, healthAssessedAt: now }`
abbrev pub with_health : ℕ → Option ℕ → AssetHealthStatus → Asset → Asset
with_health now score status a = record a {
  health_index = score;
  health_status = status;
  health_assessed_at = some now;
}

module _ {S : Store} where
  -- `find({ where: { assetId: asset.id } })`
  abbrev pub nodes_of : Asset → World S → List Device
  nodes_of a w =
      S.device_repository.find (λ d. elim d.asset_id [ none ↦ false | some id ↦ id == a.id ])
        w.devices

  -- The loop over the nodes.
  unfoldable pub pool_nodes : ℕ → World S → List Device → Pool → Pool
  pool_nodes now w [] p = p
  pool_nodes now w (d ∷ ds) p =
      pool_nodes now w ds (add_node now d (get_telemetry_breach_counts now d w) p)

  unfoldable pub breakdown : ℕ → World S → List Device → List NodeBreakdown
  breakdown now w [] = []
  breakdown now w (d ∷ ds) =
      record {
        device_id = d.id;
        name = d.name;
        status = d.status;
        health_weight = d.health_weight;
        breaches = (get_telemetry_breach_counts now d w).breaches;
        total_checks = (get_telemetry_breach_counts now d w).total_checks;
      }
      ∷ breakdown now w ds

  -- `computeFactors`; without nodes both sums are 0, which gives the scores of 100 of that branch.
  unfoldable pub asset_factors : ℕ → Asset → World S → AssetFactors
  asset_factors now a w =
      let p = pool_nodes now w (nodes_of a w) empty_pool in
      record {
        age = compute_age_score (now - asset_installed_since a) (asset_lifespan a);
        connectivity = pooled_connectivity p;
        telemetry_health = pooled_telemetry p;
      }

  -- `nodes.length === 0 ? null : ...`
  unfoldable pub asset_score_of : ℕ → Asset → World S → Option ℕ
  asset_score_of now a w =
      if is_empty (nodes_of a w) then none else some (asset_score (asset_factors now a w))

  unfoldable pub asset_assessment : ℕ → Asset → World S → AssetAssessment
  asset_assessment now a w = record {
    asset_id = a.id;
    status = derive_status (asset_score_of now a w);
    score = asset_score_of now a w;
    installed_at = asset_installed_since a;
    expected_lifespan_months = asset_lifespan a;
    age_months = round_div (10 * (now - asset_installed_since a)) ms_per_month;
    remaining_lifespan_months =
        tenths (ms_per_month * asset_lifespan a + asset_installed_since a) now ms_per_month;
    factors = asset_factors now a w;
    nodes = breakdown now w (nodes_of a w);
    assessed_at = now;
  }

  -- `assessAsset`
  unfoldable pub assess_asset : ℕ → Asset → World S → AssetAssessment × World S
  assess_asset now a w = (
    asset_assessment now a w,
    record w {
      assets =
          S.asset_repository.update (λ x. x.id == a.id)
            (with_health now (asset_score_of now a w) (derive_status (asset_score_of now a w)))
            w.assets;
    },
  )

  -- The loop of `assessAllAssets`.
  unfoldable pub assess_each_asset : ℕ → List Asset → World S → World S
  assess_each_asset now [] w = w
  assess_each_asset now (a ∷ rest) w = assess_each_asset now rest (assess_asset now a w).1

  -- `assessAllAssets`
  unfoldable pub assess_all_assets : ℕ → World S → World S
  assess_all_assets now w = assess_each_asset now (S.asset_repository.find (λ _. true) w.assets) w

  -- `getAssessment`
  unfoldable pub get_asset_assessment :
      ℕ → AccessScope → Text → World S → Response AssetAssessment × World S
  get_asset_assessment now scope id w =
      elim (S.asset_repository.find_one (λ a. a.id == id && in_scope scope a.user_id a.factory_id)
        w.assets) [
          | none ↦ (fail not_found (codes "error.assetNotFound"), w)
          | some a ↦ (ok (assess_asset now a w).0, (assess_asset now a w).1)
        ]
