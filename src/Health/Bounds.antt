-- ===== src/Health/Bounds.antt =====
-- The bounds of the scores and how they move: src/common/health-scoring.util.ts.
use aio_t_cloud.Base.{
  ℕ, zero, suc, ◌+◌, ◌-◌, ◌*◌, ◌/◌, ◌≤◌, ◌<◌, none, some, ◌≡◌, refl, ap, ◌∙◌, arith,
}
use native.Mathlib.Nat.{
  div-mul-le_self, le-div_iff_mul-le, div-lt_iff_lt-mul, div-zero, div-eq_of_lt, div-eq_of_lt-le,
}
use aio_t_cloud.Constants.{online, offline}
use aio_t_cloud.Health.{
  round_div, percent_left, compute_age_score, compute_connectivity_score, ms_per_month,
  connectivity_full_degrade,
}

div_mono : (x y k : ℕ) → x ≤ y → x / k ≤ y / k
div_mono x y zero h = rw (div-zero x, div-zero y) (omega arith)
div_mono x y (suc k) h =
    (le-div_iff_mul-le (omega arith)).1 (omega (arith, div-mul-le_self x (suc k)))

pub round_div_mono : (m n d : ℕ) → m ≤ n → round_div m d ≤ round_div n d
unfolding round_div
round_div_mono m n d h = div_mono (2 * m + d) (2 * n + d) (2 * d) (omega arith)

pub round_div-le : (n d k : ℕ) → n ≤ k * d → round_div n d ≤ k
unfolding round_div
round_div-le n zero k h = rw (div-zero (2 * n + 0)) (omega arith)
round_div-le n (suc d) k h =
    let below =
      (div-lt_iff_lt-mul {k = 2 * suc d} {x = 2 * n + suc d} {y = suc k} (omega arith)).1 in
    omega (arith, below (omega arith))

-- The score that is left lies between 0 and 100, falls as the part grows, is 100 for no part, and 0
-- from the whole on.
pub percent_left-le : (part whole : ℕ) → percent_left part whole ≤ 100
unfolding percent_left
percent_left-le part whole = round_div-le (100 * (whole - part)) whole 100 (omega arith)

pub percent_left-anti : (a b whole : ℕ) → a ≤ b → percent_left b whole ≤ percent_left a whole
unfolding percent_left
percent_left-anti a b whole h =
    round_div_mono (100 * (whole - b)) (100 * (whole - a)) whole (omega arith)

pub percent_left-none : (whole : ℕ) → 0 < whole → percent_left 0 whole ≡ 100
unfolding percent_left round_div
percent_left-none whole h = div-eq_of_lt-le {k = 100} (2 * whole) (omega arith) (omega arith)

pub percent_left-all : (part whole : ℕ) → 0 < whole → whole ≤ part → percent_left part whole ≡ 0
unfolding percent_left round_div
percent_left-all part whole h k = div-eq_of_lt (omega arith)

pub compute_age_score-le : (age lifespan : ℕ) → compute_age_score age lifespan ≤ 100
unfolding compute_age_score
compute_age_score-le age lifespan = percent_left-le age (ms_per_month * lifespan)

-- For a positive lifespan the age score is at most 100, never rises with age, is 100 at the
-- installation and 0 from the end of the lifespan on.
pub compute_age_score_lem :
    (a b lifespan : ℕ)
    → a ≤ b
    → 0 < lifespan
    → (compute_age_score a lifespan ≤ 100)
      × (compute_age_score b lifespan ≤ compute_age_score a lifespan)
      × (compute_age_score 0 lifespan ≡ 100)
      × (compute_age_score (ms_per_month * lifespan + a) lifespan ≡ 0)
unfolding compute_age_score
compute_age_score_lem a b lifespan h k =
    let whole = ms_per_month * lifespan in
    (
      percent_left-le a whole,
      percent_left-anti a b whole h,
      percent_left-none whole (omega arith),
      percent_left-all (whole + a) whole (omega arith) (omega arith),
    )

-- The connectivity score of an offline device is at most 100, never rises while it stays offline, is
-- 100 when it was last seen and 0 from 72 hours on. An online device, and one never seen, have 100.
pub compute_connectivity_score_lem :
    (seen a b : ℕ)
    → a ≤ b
    → (compute_connectivity_score offline (some seen) a ≤ 100)
      × (compute_connectivity_score offline (some seen) b
          ≤ compute_connectivity_score offline (some seen) a)
      × (compute_connectivity_score offline (some seen) seen ≡ 100)
      × (compute_connectivity_score offline (some seen) (seen + connectivity_full_degrade + a) ≡ 0)
      × (compute_connectivity_score online (some seen) a ≡ 100)
      × (compute_connectivity_score offline none a ≡ 100)
unfolding compute_connectivity_score
compute_connectivity_score_lem seen a b h = (
  percent_left-le (a - seen) connectivity_full_degrade,
  percent_left-anti (a - seen) (b - seen) connectivity_full_degrade (omega arith),
  ap (λ t. percent_left t connectivity_full_degrade) (omega arith)
      ∙ percent_left-none connectivity_full_degrade (omega arith),
  percent_left-all (seen + connectivity_full_degrade + a - seen) connectivity_full_degrade
      (omega arith) (omega arith),
  refl,
  refl,
)
