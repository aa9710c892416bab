-- ===== src/AssetHealth/Pooling.antt =====
-- The pooled scores of an asset: a weighted average lies between the scores it is taken of.
use aio_t_cloud.Base.{ℕ, ◌+◌, ◌*◌, ◌≤◌, ◌<◌, min, List, [], ◌∷◌, arith, All, lt→ltb}
use native.Mathlib.Nat.{le-div_iff_mul-le, mul-le-mul_right}
use aio_t_cloud.Entities.{Device}
use aio_t_cloud.Database.{Store, World}
use aio_t_cloud.Health.{round_div, compute_connectivity_score}
use aio_t_cloud.Health.Bounds.{round_div-le}
use aio_t_cloud.Lifecycle.{BreachCounts, get_telemetry_breach_counts}
use aio_t_cloud.AssetHealth.{Pool, empty_pool, add_node, pool_nodes, pooled_connectivity}

round_div-ge : (n d k : ℕ) → 0 < d → k * d ≤ n → k ≤ round_div n d
unfolding round_div
round_div-ge n d k pos h =
    (le-div_iff_mul-le {k = 2 * d} {x = k} {y = 2 * n + d} (omega arith)).1 (omega arith)

pooled_connectivity-between :
    (lo hi : ℕ) (p : Pool)
    → (lo * p.connectivity_weight ≤ p.weighted_connectivity)
      × (p.weighted_connectivity ≤ hi * p.connectivity_weight)
    → hi ≤ 100
    → 0 < p.connectivity_weight
    → (lo ≤ pooled_connectivity p) × (pooled_connectivity p ≤ hi)
unfolding pooled_connectivity
pooled_connectivity-between lo hi p (k, l) bound heavy =
    let all : ℕ = p.connectivity_weight in
    let sum : ℕ = min p.weighted_connectivity (100 * all) in
    let capped = mul-le-mul_right all bound in
    rw (lt→ltb 0 all heavy)
      (round_div-ge sum all lo heavy (omega arith), round_div-le sum all hi (omega arith))

-- Scores between two bounds.
module _ (now lo hi : ℕ) where
  abbrev pub AreBetween : List Device → Type 0
  AreBetween ds =
      All
        (λ d.
          (lo ≤ compute_connectivity_score d.status d.last_seen_at now)
          × (compute_connectivity_score d.status d.last_seen_at now ≤ hi))
        ds

abbrev IsPoolBetween : ℕ → ℕ → Pool → Type 0
IsPoolBetween lo hi p =
    (lo * p.connectivity_weight ≤ p.weighted_connectivity)
    × (p.weighted_connectivity ≤ hi * p.connectivity_weight)

add_node-IsPoolBetween :
    (now lo hi : ℕ) (d : Device) (c : BreachCounts) (p : Pool)
    → lo ≤ compute_connectivity_score d.status d.last_seen_at now
    → compute_connectivity_score d.status d.last_seen_at now ≤ hi
    → IsPoolBetween lo hi p
    → IsPoolBetween lo hi (add_node now d c p)
unfolding add_node
add_node-IsPoolBetween now lo hi d c p low high (k, l) =
    let score = compute_connectivity_score d.status d.last_seen_at now in
    (
      omega (arith, mul-le-mul_right d.health_weight low),
      omega (arith, mul-le-mul_right d.health_weight high),
    )

module _ {S : Store} where
  pool_nodes-IsPoolBetween :
      (now lo hi : ℕ) (w : World S) (ds : List Device) (p : Pool)
      → AreBetween now lo hi ds
      → IsPoolBetween lo hi p
      → IsPoolBetween lo hi (pool_nodes now w ds p)
  unfolding pool_nodes
  pool_nodes-IsPoolBetween now lo hi w [] p h k = k
  pool_nodes-IsPoolBetween now lo hi w (d ∷ ds) p ((low, high), h) k =
      let c = get_telemetry_breach_counts now d w in
      pool_nodes-IsPoolBetween now lo hi w ds (add_node now d c p) h
        (add_node-IsPoolBetween now lo hi d c p low high k)

  -- If the connectivity scores of all nodes lie between two bounds, the upper one at most 100, and
  -- the nodes have some weight, then the pooled connectivity lies between them too, whatever the
  -- weights.
  pub pooled_connectivity_between :
      (now lo hi : ℕ) (w : World S) (ds : List Device)
      → AreBetween now lo hi ds
      → hi ≤ 100
      → 0 < (pool_nodes now w ds empty_pool).connectivity_weight
      → (lo ≤ pooled_connectivity (pool_nodes now w ds empty_pool))
        × (pooled_connectivity (pool_nodes now w ds empty_pool) ≤ hi)
  pooled_connectivity_between now lo hi w ds h bound heavy =
      pooled_connectivity-between lo hi (pool_nodes now w ds empty_pool)
        (pool_nodes-IsPoolBetween now lo hi w ds empty_pool h (omega arith, omega arith)) bound
        heavy
