-- ===== src/Number.antt =====
-- Finite numbers as fractions: the comparisons `<` and `>`, and `Math.round`.
use aio_t_cloud.Base.{ℕ, suc, ◌+◌, ◌*◌, ◌/◌, Bool, true, false, ltb, if◌then◌else◌}

-- `numerator / (below + 1)`, or its negation.
pub record Number : Type 0 where
  pub is_negative : Bool
  pub numerator : ℕ
  pub below : ℕ

abbrev pub denominator : Number → ℕ
denominator x = suc x.below

abbrev pub natural : ℕ → Number
natural n = record { is_negative = false; numerator = n; below = 0 }

-- `a < b`
abbrev less_signed : Bool → Bool → ℕ → ℕ → Bool
less_signed true true m n = ltb n m
less_signed true false m n = ltb 0 (m + n)
less_signed false true m n = false
less_signed false false m n = ltb m n

unfoldable pub less : Number → Number → Bool
less a b =
    less_signed a.is_negative b.is_negative (a.numerator * denominator b)
      (b.numerator * denominator a)

-- `Math.max(0, Math.round(x))`: halves round up, and every number below 0 rounds to 0 or less.
unfoldable pub round_nonneg : Number → ℕ
round_nonneg x =
    if x.is_negative then 0 else (2 * x.numerator + denominator x) / (2 * denominator x)
