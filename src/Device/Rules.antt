-- ===== src/Device/Rules.antt =====
-- The grammar of the alert rules that gateways send: `parseChannelStateMessage`, `parseAlertRule` and
-- `parseAnomalyRule` of src/modules/device/device.service.ts. A regular expression is a parser of its
-- parts from left to right; none of the two can match in a second way after going back, since each
-- part ends where the next one cannot begin.
pub mod Parts
pub mod RoundTrip
pub mod Anomalies
use aio_t_cloud.Base.{
  Text, codes, ◌==◌, ℕ, zero, suc, ◌+◌, ◌*◌, ◌-◌, Bool, true, false, not, ◌&&◌, ◌||◌, Option, none,
  some, and_then, is_truthy, is_empty, trim, trim_start, is_space, to_lower, split_at, List, [],
  ◌∷◌, ◌++◌, nat_eq, if◌then◌else◌,
}
use mathlib.Core.List.{reverse}
use aio_t_cloud.Number.{Number}
use aio_t_cloud.Json.{Json, str}
use aio_t_cloud.Topics.{span, strip_prefix, is_digit}

-- A text of the form `key=value`.
pub record ChannelAction : Type 0 where
  pub key : Text
  pub value : Text

abbrev action_of : Text × Text → Option ChannelAction
action_of (l, r) =
    if is_truthy l && is_truthy (trim l) && is_truthy (trim r)
    then some (record { key = trim l; value = trim r })
    else none

-- `parseChannelStateMessage`
unfoldable pub parse_channel_state_message : Json → Option ChannelAction
parse_channel_state_message (str s) = and_then (split_at b'=' s) action_of
parse_channel_state_message _ = none

-- `-?\d+(?:\.\d+)?`: the sign and the digits on the two sides of the point.
pub record Numeral : Type 0 where
  pub is_negative : Bool
  pub whole : Text
  pub decimals : Text

-- The digits after the point, where there are a point and a digit.
unfoldable pub read_decimals : Text → Text × Text
unfolding strip_prefix span
read_decimals s = elim (strip_prefix (codes ".") s) [
  | none ↦ ([], s)
  | some t ↦ if is_truthy (span is_digit t).0 then span is_digit t else ([], s)
]

unfoldable pub read_digits : Bool → Text → Option (Numeral × Text)
unfolding read_decimals
read_digits sign s =
    let whole = (span is_digit s).0 in
    let (decimals, rest) = read_decimals (span is_digit s).1 in
    if is_truthy whole
    then some (record { is_negative = sign; whole = whole; decimals = decimals }, rest)
    else none

-- The numeral that a text begins with, and the rest.
unfoldable pub read_numeral : Text → Option (Numeral × Text)
unfolding read_digits
read_numeral s = elim (strip_prefix (codes "-") s) [
  | none ↦ read_digits false s
  | some t ↦ read_digits true t
]

unfoldable digits_value : ℕ → Text → ℕ
digits_value done [] = done
digits_value done (c ∷ s) = digits_value (10 * done + (c - b'0')) s

-- One less than the power of ten with as many zeros as there are digits.
unfoldable nines : Text → ℕ
nines [] = 0
nines (_ ∷ s) = 10 * nines s + 9

-- `Number(text)` of a numeral, which is never NaN: its exact value. The step to the nearest double is
-- left to the printer, which is all that reads it.
unfoldable pub number_of_numeral : Numeral → Number
unfolding digits_value nines
number_of_numeral n = record {
  is_negative = n.is_negative;
  numerator = digits_value 0 (n.whole ++ n.decimals);
  below = nines n.decimals;
}

-- The operators of a rule, in the order of the alternatives.
pub data Operator : Type 0 where
  at_least at_most equal differs above under : Operator

abbrev pub operator_text : Operator → Text
operator_text at_least = codes ">="
operator_text at_most = codes "<="
operator_text equal = codes "=="
operator_text differs = codes "!="
operator_text above = codes ">"
operator_text under = codes "<"

abbrev pub operators : List Operator
operators = at_least ∷ at_most ∷ equal ∷ differs ∷ above ∷ under ∷ []

unfoldable pub read_operator : List Operator → Text → Option (Operator × Text)
unfolding strip_prefix
read_operator [] s = none
read_operator (o ∷ os) s = elim (strip_prefix (operator_text o) s) [
  | none ↦ read_operator os s
  | some t ↦ some (o, t)
]

-- `[^<>=!]`
abbrev pub is_field_unit : ℕ → Bool
is_field_unit c = not (nat_eq c b'<' || nat_eq c b'>' || nat_eq c b'=' || nat_eq c b'!')

unfoldable pub trim_end : Text → Text
unfolding trim_start
trim_end s = reverse (trim_start (reverse s))

-- `[^<>=!]+?` before `\s*`: the shortest field, of one unit at least.
abbrev pub shortest_field : Text → Option Text
shortest_field [] = none
shortest_field (c ∷ s) = some (c ∷ trim_end s)

-- The numeral after the operator, up to the end.
abbrev pub last_numeral : Text → Option Numeral
last_numeral s = and_then (read_numeral s) (λ (n, rest). if is_empty rest then some n else none)

pub record Condition : Type 0 where
  pub metric : Text
  pub field : Text
  pub operator : Operator
  pub threshold : Number

-- What follows `<metric>.`.
unfoldable pub field_condition : Text → Text → Option Condition
unfolding span read_operator read_numeral trim_end number_of_numeral
field_condition metric s =
    let (run, rest) = span is_field_unit s in
    and_then (shortest_field run) λ field. and_then (read_operator operators rest) λ (operator, t).
      and_then (last_numeral (trim_start t)) λ n. some (record {
        metric = metric;
        field = field;
        operator = operator;
        threshold = number_of_numeral n;
      })

-- The regular expression of `parseAlertRule`.
unfoldable pub parse_condition : Text → Option Condition
unfolding field_condition
parse_condition s =
    and_then (split_at b'.' s)
      (λ (metric, rest). if is_truthy metric then field_condition metric rest else none)

pub record AlertRule : Type 0 where
  pub condition : Condition
  pub action : Option ChannelAction

-- `actionText && actionText.toLowerCase() !== 'none' ? parseChannelStateMessage(actionText) : undefined`
unfoldable pub rule_action : Option Text → Option ChannelAction
unfolding parse_channel_state_message
rule_action none = none
rule_action (some text) =
    if is_truthy text && not (to_lower text == codes "none")
    then parse_channel_state_message (str text)
    else none

-- The two sides of the first `:`; the right one is trimmed.
abbrev pub rule_parts : Text → Text × Option Text
rule_parts rule = elim (split_at b':' rule) [
  | none ↦ (rule, none)
  | some (condition, text) ↦ (condition, some (trim text))
]

-- `parseAlertRule`
unfoldable pub parse_alert_rule : Text → Option AlertRule
unfolding parse_condition rule_action
parse_alert_rule rule =
    let (condition, text) = rule_parts rule in
    and_then (parse_condition (trim condition))
      (λ c. some (record { condition = c; action = rule_action text }))

pub record AnomalyRule : Type 0 where
  pub metric : Text
  pub field : Text
  pub z : Number
  pub mean : Number
  pub std_dev : Number

abbrev pub not_space : ℕ → Bool
not_space c = not (is_space c)

-- A numeral after a prefix, and the rest.
unfoldable pub numeral_after : Text → Text → Option (Numeral × Text)
unfolding strip_prefix read_numeral
numeral_after prefix s = and_then (strip_prefix prefix s) read_numeral

-- What follows `<metric>.<field>` and white space.
unfoldable pub statistics : Text → Text → Text → Option AnomalyRule
unfolding numeral_after trim_start number_of_numeral
statistics metric field s = and_then (numeral_after (codes "z=") s) λ (z, a).
    and_then (numeral_after (codes "(mean=") (trim_start a)) λ (mean, b).
      and_then (strip_prefix (codes ",") b) λ c.
        and_then (numeral_after (codes "stddev=") (trim_start c)) λ (std_dev, d).
          if d == codes ")"
          then some (record {
            metric = metric;
            field = field;
            z = number_of_numeral z;
            mean = number_of_numeral mean;
            std_dev = number_of_numeral std_dev;
          })
          else none

-- What follows `<metric>.`.
unfoldable pub field_statistics : Text → Text → Option AnomalyRule
unfolding statistics span
field_statistics metric s =
    let (field, rest) = span not_space s in
    if is_truthy field && is_truthy rest then statistics metric field (trim_start rest) else none

-- `parseAnomalyRule`
unfoldable pub parse_anomaly_rule : Text → Option AnomalyRule
unfolding field_statistics
parse_anomaly_rule rule =
    and_then (split_at b'.' (trim rule))
      (λ (metric, rest). if is_truthy metric then field_statistics metric rest else none)
