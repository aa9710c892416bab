-- ===== src/Device/Rules/Anomalies.antt =====
-- What `parseAnomalyRule` reads back of the gateway's report of an anomaly, and that `parseAlertRule`,
-- which is tried first, leaves it alone.
use aio_t_cloud.Base.{
  Text, codes, ◌++◌, ◌==◌, ℕ, Bool, true, false, some, none, [], ◌∷◌, is_truthy, ◌≡◌, ◌∙◌, sym, ap,
  refl, arith, All, All-append, All-map, nat_eq, is_space, trim, trim_start, trim_tight,
}
use mathlib.Core.List.{reverse, reverse-cons, append_assoc, append-nil}
use aio_t_cloud.Topics.{strip_prefix}
use aio_t_cloud.Topics.Parsing.{strip_prefix-append}
use aio_t_cloud.Device.Rules.{
  Numeral, number_of_numeral, is_field_unit, not_space, AnomalyRule, statistics, numeral_after,
  field_statistics, parse_anomaly_rule, parse_alert_rule, parse_condition, read_operator, operators,
  field_condition, rule_parts,
}
use aio_t_cloud.Device.Rules.Parts.{
  Avoids, split_at-append, split_at-none, Stops, span-append_stop, IsSolid, numeral_text, IsNumeral,
  in_numeral, read_numeral-numeral_text,
}
use aio_t_cloud.Device.Rules.RoundTrip.{
  IsMetric, IsField, numeral_text-Stops, numeral_text-IsConditionText, IsConditionText-Avoids,
  truthy_append,
}

abbrev std_dev_text : Numeral → Text
std_dev_text s = codes ", stddev=" ++ (numeral_text s ++ codes ")")

abbrev mean_text : Numeral → Numeral → Text
mean_text m s = codes " (mean=" ++ (numeral_text m ++ std_dev_text s)

abbrev statistics_text : Numeral → Numeral → Numeral → Text
statistics_text z m s = codes "z=" ++ (numeral_text z ++ mean_text m s)

-- The gateway's `AnomalyResult.String()`, as the source's comment shows it.
abbrev pub anomaly_text : Text → Text → Numeral → Numeral → Numeral → Text
anomaly_text metric field z mean std_dev =
    metric ++ (b'.' ∷ (field ++ (b' ' ∷ statistics_text z mean std_dev)))

-- The last unit is no white space.
ends_solid : Text → Bool
unfolding is_space
ends_solid [] = false
ends_solid (c ∷ []) = not_space c
ends_solid (_ ∷ d ∷ s) = ends_solid (d ∷ s)

ends_solid-append : (l s : Text) → ends_solid s ≡ true → ends_solid (l ++ s) ≡ true
unfolding ends_solid
ends_solid-append [] s h = h
ends_solid-append (c ∷ []) [] h = absurd (ground arith)
ends_solid-append (c ∷ []) (d ∷ s) h = h
ends_solid-append (c ∷ d ∷ l) s h = ends_solid-append (d ∷ l) s h

trim_start-reverse :
    (s r : Text) → ends_solid s ≡ true → trim_start (reverse s ++ r) ≡ reverse s ++ r
unfolding ends_solid trim_start is_space
trim_start-reverse [] r h = absurd (ground arith)
trim_start-reverse (c ∷ []) r h = ground arith
trim_start-reverse (c ∷ d ∷ s) r h =
    rw (reverse-cons c (d ∷ s), append_assoc) (trim_start-reverse (d ∷ s) (c ∷ r) h)

trim_start-append : (m s : Text) → is_truthy m ≡ true → IsSolid m → trim_start (m ++ s) ≡ m ++ s
unfolding trim_start
trim_start-append [] s t h = absurd (ground arith)
trim_start-append (c ∷ m) s t h = ground arith

trim-ends :
    (m s : Text) → is_truthy m ≡ true → IsSolid m → ends_solid s ≡ true → trim (m ++ s) ≡ m ++ s
trim-ends m s t h e = trim_tight (m ++ s) (
  trim_start-append m s t h,
  rw append-nil at (trim_start-reverse (m ++ s) [] (ends_solid-append m s e)),
)

numeral_after-text :
    (prefix : Text) (n : Numeral) (rest : Text)
    → IsNumeral n
    → Stops in_numeral rest
    → numeral_after prefix (prefix ++ (numeral_text n ++ rest)) ≡ some (n, rest)
unfolding numeral_after
numeral_after-text prefix n rest h k = rw strip_prefix-append (read_numeral-numeral_text n rest h k)

-- A lone `=` is no operator.
lone_equals : (s : Text) → Stops (λ c. nat_eq c b'=') s → read_operator operators (b'=' ∷ s) ≡ none
unfolding read_operator strip_prefix
lone_equals [] h = refl
lone_equals (c ∷ s) h = ground arith

statistics_text-ends_solid : (z m s : Numeral) → ends_solid (b' ' ∷ statistics_text z m s) ≡ true
unfolding ends_solid is_space
statistics_text-ends_solid z m s =
    ends_solid-append (codes " z=") (numeral_text z ++ mean_text m s) (
      ends_solid-append (numeral_text z) (mean_text m s) (
        ends_solid-append (codes " (mean=") (numeral_text m ++ std_dev_text s) (
          ends_solid-append (numeral_text m) (std_dev_text s) (
            ends_solid-append (codes ", stddev=") (numeral_text s ++ codes ")")
              (ends_solid-append (numeral_text s) (codes ")") refl)))))

statistics_text-Avoids :
    (z m s : Numeral)
    → IsNumeral z
    → IsNumeral m
    → IsNumeral s
    → Avoids b':' (statistics_text z m s)
statistics_text-Avoids z m s hz hm hs =
    let Other : ℕ → Type 0 = λ d. nat_eq d b':' ≡ false in
    let avoids = λ (n : Numeral) (h : IsNumeral n).
      IsConditionText-Avoids (numeral_text n) (numeral_text-IsConditionText n h) in
    let end : Avoids b':' (std_dev_text s) =
      All-append Other (codes ", stddev=") (numeral_text s ++ codes ")") ground arith
        (All-append Other (numeral_text s) (codes ")") (avoids s hs) (refl, tt)) in
    let middle : Avoids b':' (mean_text m s) =
      All-append Other (codes " (mean=") (numeral_text m ++ std_dev_text s) ground arith
        (All-append Other (numeral_text m) (std_dev_text s) (avoids m hm) end) in
    All-append Other (codes "z=") (numeral_text z ++ mean_text m s) ground arith
      (All-append Other (numeral_text z) (mean_text m s) (avoids z hz) middle)

-- A run of units up to a lone `=` is no condition.
field_condition-lone_equals :
    (metric run rest : Text)
    → is_truthy run ≡ true
    → All (λ c. is_field_unit c ≡ true) run
    → Stops (λ c. nat_eq c b'=') rest
    → field_condition metric (run ++ (b'=' ∷ rest)) ≡ none
unfolding field_condition
field_condition-lone_equals metric [] rest t h k = absurd (ground arith)
field_condition-lone_equals metric (c ∷ run) rest t h k =
    rw (span-append_stop is_field_unit (c ∷ run) (b'=' ∷ rest) h refl, lone_equals rest k)

-- The rule that such a report stands for.
abbrev pub anomaly : Text → Text → Numeral → Numeral → Numeral → AnomalyRule
anomaly metric field z mean std_dev = record {
  metric = metric;
  field = field;
  z = number_of_numeral z;
  mean = number_of_numeral mean;
  std_dev = number_of_numeral std_dev;
}

module _ (metric field : Text) (z mean std_dev : Numeral) (h : IsMetric metric) (k : IsField field)
    (hz : IsNumeral z) (hm : IsNumeral mean) (hs : IsNumeral std_dev) where
  statistics-statistics_text :
      statistics metric field (statistics_text z mean std_dev)
      ≡ some (anomaly metric field z mean std_dev)
  unfolding statistics trim_start is_space strip_prefix ◌==◌
  statistics-statistics_text = rw (
    numeral_after-text (codes "z=") z (mean_text mean std_dev) hz refl,
    numeral_after-text (codes "(mean=") mean (std_dev_text std_dev) hm refl,
    numeral_after-text (codes "stddev=") std_dev (codes ")") hs refl,
  )

  pub text_trimmed :
      trim (anomaly_text metric field z mean std_dev) ≡ anomaly_text metric field z mean std_dev
  text_trimmed =
      trim-ends metric (b'.' ∷ (field ++ (b' ' ∷ statistics_text z mean std_dev))) h.0
        (All-map _ _ (λ c t. ground arith) metric h.1)
        (ends_solid-append (b'.' ∷ field) (b' ' ∷ statistics_text z mean std_dev)
          (statistics_text-ends_solid z mean std_dev))

  metric_Avoids : Avoids b'.' metric
  metric_Avoids = All-map _ _ (λ c t. ground arith) metric h.1

  field_statistics-text :
      field_statistics metric (field ++ (b' ' ∷ statistics_text z mean std_dev))
      ≡ some (anomaly metric field z mean std_dev)
  unfolding field_statistics trim_start is_space
  field_statistics-text = rw (
    span-append_stop not_space field (b' ' ∷ statistics_text z mean std_dev)
        (All-map _ _ (λ c t. ground arith) field k.1) refl,
    k.0,
    statistics-statistics_text,
  )

  -- The gateway's report of an anomaly is read as its metric, field, z-score, mean and deviation.
  pub parse_anomaly_rule-anomaly_text :
      parse_anomaly_rule (anomaly_text metric field z mean std_dev)
      ≡ some (anomaly metric field z mean std_dev)
  unfolding parse_anomaly_rule
  parse_anomaly_rule-anomaly_text = rw (
    text_trimmed,
    split_at-append b'.' metric (field ++ (b' ' ∷ statistics_text z mean std_dev)) metric_Avoids,
    h.0,
    field_statistics-text,
  )

  text_Avoids : Avoids b':' (anomaly_text metric field z mean std_dev)
  text_Avoids =
      let Other : ℕ → Type 0 = λ d. nat_eq d b':' ≡ false in
      All-append Other metric (b'.' ∷ (field ++ (b' ' ∷ statistics_text z mean std_dev)))
        (All-map _ Other (λ c t. ground arith) metric h.1)
        (
          refl,
          All-append Other field (b' ' ∷ statistics_text z mean std_dev)
              (All-map _ Other (λ c t. ground arith) field k.1)
              (refl, statistics_text-Avoids z mean std_dev hz hm hs),
        )

  field_condition-none :
      field_condition metric (field ++ (b' ' ∷ statistics_text z mean std_dev)) ≡ none
  field_condition-none =
      ap (field_condition metric)
        (sym (append_assoc field (codes " z") (b'=' ∷ (numeral_text z ++ mean_text mean std_dev))))
      ∙ field_condition-lone_equals metric (field ++ codes " z")
          (numeral_text z ++ mean_text mean std_dev) (truthy_append field (codes " z") k.0)
          (All-append _ field (codes " z") (All-map _ _ (λ c t. ground arith) field k.1)
            (refl, (refl, tt)))
          (numeral_text-Stops (λ c. nat_eq c b'=') z (mean_text mean std_dev) hz refl
            (λ c t. ground arith))

  -- It is no threshold rule.
  pub parse_alert_rule-anomaly_text :
      parse_alert_rule (anomaly_text metric field z mean std_dev) ≡ none
  unfolding parse_alert_rule parse_condition
  parse_alert_rule-anomaly_text =
      let whole : Text = anomaly_text metric field z mean std_dev in
      let parts : rule_parts whole ≡ (whole, none) =
        rw (split_at-none b':' whole text_Avoids, rule_parts) refl in
      rw (
        parts,
        text_trimmed,
        split_at-append b'.' metric (field ++ (b' ' ∷ statistics_text z mean std_dev))
            metric_Avoids,
        h.0,
        field_condition-none,
      )
