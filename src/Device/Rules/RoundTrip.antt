-- ===== src/Device/Rules/RoundTrip.antt =====
-- What `parseAlertRule` reads back of a rule that is written in the documented form.
use aio_t_cloud.Base.{
  Text, codes, ◌==◌, ◌++◌, ℕ, Bool, true, false, not, ◌&&◌, Option, some, none, [], ◌∷◌,
  if◌then◌else◌, is_truthy, ◌≡◌, ◌∙◌, refl, arith, All, All-append, All-map, sym, ap, nat_eq,
  is_space, trim, to_lower, lower_unit, any, eq_false_of_ne,
}
use mathlib.Core.List.{append-nil}
use aio_t_cloud.Topics.{is_digit}
use aio_t_cloud.Device.Rules.{
  ChannelAction, Numeral, number_of_numeral, Operator, operator_text, at_least, at_most, equal,
  differs, above, under, is_field_unit, not_space, AlertRule, parse_condition, parse_alert_rule,
  rule_action, rule_parts, parse_channel_state_message, field_condition, last_numeral, read_numeral,
}
use aio_t_cloud.Device.Rules.Parts.{
  Avoids, split_at-append, split_at-none, Stops, span-append_stop, IsSolid, trim-solid,
  shortest_field-solid, numeral_text, IsNumeral, read_numeral-numeral_text,
  read_operator-operator_text, trim_start-solid,
}

-- The units of a metric's and of a field's name: no white space, no separator of the grammar.
abbrev pub is_metric_unit : ℕ → Bool
is_metric_unit c = not_space c && not (nat_eq c b':') && not (nat_eq c b'.')

abbrev pub is_name_unit : ℕ → Bool
is_name_unit c = not_space c && not (nat_eq c b':') && is_field_unit c

abbrev pub IsMetric : Text → Type 0
IsMetric s = (is_truthy s ≡ true) × All (λ c. is_metric_unit c ≡ true) s

abbrev pub IsField : Text → Type 0
IsField s = (is_truthy s ≡ true) × All (λ c. is_name_unit c ≡ true) s

-- A key or a value of an action: no white space, and no `=` in a key.
abbrev pub is_key_unit : ℕ → Bool
is_key_unit c = not_space c && not (nat_eq c b'=')

abbrev pub IsAction : ChannelAction → Type 0
IsAction a =
    (is_truthy a.key ≡ true)
    × All (λ c. is_key_unit c ≡ true) a.key
    × (is_truthy a.value ≡ true)
    × IsSolid a.value

abbrev pub condition_text : Text → Text → Operator → Numeral → Text
condition_text metric field o n = metric ++ (b'.' ∷ (field ++ (operator_text o ++ numeral_text n)))

-- The end of a rule: nothing, the word `none`, or an action.
abbrev pub suffix_text : Option (Option ChannelAction) → Text
suffix_text none = []
suffix_text (some none) = codes ":none"
suffix_text (some (some a)) = b':' ∷ (a.key ++ (b'=' ∷ a.value))

abbrev pub suffix_action : Option (Option ChannelAction) → Option ChannelAction
suffix_action none = none
suffix_action (some a) = a

abbrev pub IsSuffix : Option (Option ChannelAction) → Type 0
IsSuffix (some (some a)) = IsAction a
IsSuffix _ = Unit

-- The units of a condition: no white space and no `:`.
abbrev pub is_condition_unit : ℕ → Bool
is_condition_unit c = not_space c && not (nat_eq c b':')

abbrev pub IsConditionText : Text → Type 0
IsConditionText s = All (λ c. is_condition_unit c ≡ true) s

digits-IsConditionText : (s : Text) → All (λ c. is_digit c ≡ true) s → IsConditionText s
unfolding is_space
digits-IsConditionText s h = All-map _ _ (λ c k. ground arith) s h

pub numeral_text-IsConditionText : (n : Numeral) → IsNumeral n → IsConditionText (numeral_text n)
unfolding is_space
numeral_text-IsConditionText n h =
    let Fits : ℕ → Type 0 = λ c. is_condition_unit c ≡ true in
    All-append Fits _ _ (sign_fits n.is_negative) (
      All-append Fits _ _ (digits-IsConditionText n.whole h.1)
        (point_fits n.decimals (digits-IsConditionText n.decimals h.2)))
  where
    sign_fits : (b : Bool) → IsConditionText (if b then codes "-" else [])
    sign_fits true = (refl, tt)
    sign_fits false = tt

    point_fits :
        (s : Text) → IsConditionText s → IsConditionText (if is_truthy s then b'.' ∷ s else [])
    point_fits [] k = tt
    point_fits (c ∷ s) k = (refl, k)

operator_text-IsConditionText : (o : Operator) → IsConditionText (operator_text o)
unfolding is_space
operator_text-IsConditionText at_least = (refl, (refl, tt))
operator_text-IsConditionText at_most = (refl, (refl, tt))
operator_text-IsConditionText equal = (refl, (refl, tt))
operator_text-IsConditionText differs = (refl, (refl, tt))
operator_text-IsConditionText above = (refl, tt)
operator_text-IsConditionText under = (refl, tt)

pub condition_text-IsConditionText :
    (metric field : Text) (o : Operator) (n : Numeral)
    → IsMetric metric
    → IsField field
    → IsNumeral n
    → IsConditionText (condition_text metric field o n)
unfolding is_space
condition_text-IsConditionText metric field o n h k l =
    let Fits : ℕ → Type 0 = λ c. is_condition_unit c ≡ true in
    All-append Fits metric _ (All-map _ Fits (λ c t. ground arith) metric h.1) (
      refl,
      All-append Fits field _ (All-map _ Fits (λ c t. ground arith) field k.1) (
          All-append Fits _ _ (operator_text-IsConditionText o) (numeral_text-IsConditionText n l)),
    )

-- A numeral begins with a digit or a sign.
pub numeral_text-Stops :
    (p : ℕ → Bool) (n : Numeral) (rest : Text)
    → IsNumeral n
    → p b'-' ≡ false
    → ((c : ℕ) → is_digit c ≡ true → p c ≡ false)
    → Stops p (numeral_text n ++ rest)
numeral_text-Stops p n rest h minus digits =
    go n.is_negative n.whole (if is_truthy n.decimals then b'.' ∷ n.decimals else []) h.0 h.1
  where
    go :
        (b : Bool) (w s : Text)
        → is_truthy w ≡ true
        → All (λ c. is_digit c ≡ true) w
        → Stops p (((if b then codes "-" else []) ++ (w ++ s)) ++ rest)
    go true w s t k = minus
    go false [] s t k = absurd (ground arith)
    go false (c ∷ w) s t k = digits c k.0

operator_text-Stops : (o : Operator) (s : Text) → Stops is_field_unit (operator_text o ++ s)
operator_text-Stops at_least s = refl
operator_text-Stops at_most s = refl
operator_text-Stops equal s = refl
operator_text-Stops differs s = refl
operator_text-Stops above s = refl
operator_text-Stops under s = refl

pub IsConditionText-IsSolid : (s : Text) → IsConditionText s → IsSolid s
IsConditionText-IsSolid s h = All-map _ _ (λ c k. ground arith) s h

last_numeral-numeral_text : (n : Numeral) → IsNumeral n → last_numeral (numeral_text n) ≡ some n
last_numeral-numeral_text n h =
    let e : read_numeral (numeral_text n) ≡ some (n, []) =
      rw append-nil at (read_numeral-numeral_text n [] h tt) in
    rw e

field_condition-text :
    (metric field : Text) (o : Operator) (n : Numeral)
    → IsField field
    → IsNumeral n
    → field_condition metric (field ++ (operator_text o ++ numeral_text n))
      ≡ some
          (record { metric = metric; field = field; operator = o; threshold = number_of_numeral n })
unfolding field_condition
field_condition-text metric field o n k l = rw (
  span-append_stop is_field_unit field (operator_text o ++ numeral_text n)
      (All-map _ _ (λ c t. ground arith) field k.1) (operator_text-Stops o (numeral_text n)),
  shortest_field-solid field k.0 (All-map _ _ (λ c t. ground arith) field k.1),
  read_operator-operator_text o (numeral_text n) (
      rw append-nil at (numeral_text-Stops (λ c. nat_eq c b'=') n [] l refl (λ c t. ground arith))),
  trim_start-solid (numeral_text n) (IsConditionText-IsSolid _ (numeral_text-IsConditionText n l)),
  last_numeral-numeral_text n l,
)

parse_condition-condition_text :
    (metric field : Text) (o : Operator) (n : Numeral)
    → IsMetric metric
    → IsField field
    → IsNumeral n
    → parse_condition (condition_text metric field o n)
      ≡ some
          (record { metric = metric; field = field; operator = o; threshold = number_of_numeral n })
unfolding parse_condition
parse_condition-condition_text metric field o n h k l = rw (
  split_at-append b'.' metric (field ++ (operator_text o ++ numeral_text n))
      (All-map _ _ (λ c t. ground arith) metric h.1),
  h.0,
  field_condition-text metric field o n k l,
)

-- A text with `=` in it is not the word `none`.
has_equals : (k v : Text) → any (λ c. nat_eq c b'=') (to_lower (k ++ (b'=' ∷ v))) ≡ true
unfolding to_lower lower_unit
has_equals [] v = refl
has_equals (c ∷ k) v = ground (arith, has_equals k v)

equals_not_none : (k v : Text) → (to_lower (k ++ (b'=' ∷ v)) == codes "none") ≡ false
equals_not_none k v = eq_false_of_ne _ (codes "none") λ e.
    let same : any (λ c. nat_eq c b'=') (codes "none") ≡ true =
      ap (any (λ c. nat_eq c b'=')) (sym e) ∙ has_equals k v in
    absurd (ground arith)

pub truthy_append : (s t : Text) → is_truthy s ≡ true → is_truthy (s ++ t) ≡ true
truthy_append [] t h = absurd (ground arith)
truthy_append (_ ∷ s) t h = refl

rule_action-suffix :
    (a : ChannelAction) → IsAction a → rule_action (some (a.key ++ (b'=' ∷ a.value))) ≡ some a
unfolding rule_action parse_channel_state_message
rule_action-suffix a h = rw (
  truthy_append a.key (b'=' ∷ a.value) h.0,
  equals_not_none a.key a.value,
  split_at-append b'=' a.key a.value (All-map _ _ (λ c t. ground arith) a.key h.1),
  trim-solid a.key (All-map _ _ (λ c t. ground arith) a.key h.1),
  trim-solid a.value h.3,
  h.0,
  h.2,
)

-- A rule in the documented form.
abbrev pub rule_text : Text → Text → Operator → Numeral → Option (Option ChannelAction) → Text
rule_text metric field o n suffix = condition_text metric field o n ++ suffix_text suffix

pub IsConditionText-Avoids : (s : Text) → IsConditionText s → Avoids b':' s
IsConditionText-Avoids s h = All-map _ _ (λ c k. ground arith) s h

none_is_no_action : (rule_action none ≡ none) × (rule_action (some (trim (codes "none"))) ≡ none)
unfolding rule_action trim to_lower ◌==◌
none_is_no_action = (refl, refl)

module _ (metric field : Text) (o : Operator) (n : Numeral) (h : IsMetric metric)
    (k : IsField field) (l : IsNumeral n) where
  condition_parses :
      parse_condition (trim (condition_text metric field o n))
      ≡ some
          (record { metric = metric; field = field; operator = o; threshold = number_of_numeral n })
  condition_parses =
      let fits : IsConditionText (condition_text metric field o n) =
        condition_text-IsConditionText metric field o n h k l in
      rw (trim-solid (condition_text metric field o n) (IsConditionText-IsSolid _ fits))
        (parse_condition-condition_text metric field o n h k l)

  read : Option ChannelAction → Option AlertRule
  read action = some (record {
    condition = record {
      metric = metric;
      field = field;
      operator = o;
      threshold = number_of_numeral n;
    };
    action = action;
  })

  no_colon : Avoids b':' (condition_text metric field o n)
  no_colon = IsConditionText-Avoids _ (condition_text-IsConditionText metric field o n h k l)

  with_suffix :
      (text : Text)
      → parse_alert_rule (condition_text metric field o n ++ (b':' ∷ text))
        ≡ read (rule_action (some (trim text)))
  unfolding parse_alert_rule read
  with_suffix text =
      let whole : Text = condition_text metric field o n in
      let parts : rule_parts (whole ++ (b':' ∷ text)) ≡ (whole, some (trim text)) =
        rw (split_at-append b':' whole text no_colon, rule_parts) refl in
      rw (parts, condition_parses)

  -- A rule `<metric>.<field><operator><threshold>`, with nothing after it, with `:none`, or with an
  -- action `:<key>=<value>`, is read as that metric, field, operator, threshold and action. The metric
  -- has no white space, `:` or `.`, the field no white space, `:` or unit of an operator, the key and
  -- the value no white space, and the key no `=`; none of them is empty.
  pub parse_alert_rule-rule_text :
      (suffix : Option (Option ChannelAction))
      → IsSuffix suffix
      → parse_alert_rule (rule_text metric field o n suffix)
        ≡ some (record {
          condition = record {
            metric = metric;
            field = field;
            operator = o;
            threshold = number_of_numeral n;
          };
          action = suffix_action suffix;
        })
  unfolding parse_alert_rule read
  parse_alert_rule-rule_text none m =
      let parts : rule_parts (condition_text metric field o n)
          ≡ (condition_text metric field o n, none) =
        rw (split_at-none b':' _ no_colon, rule_parts) refl in
      rw (append-nil, parts, condition_parses, none_is_no_action.0)
  parse_alert_rule-rule_text (some none) m =
      with_suffix (codes "none") ∙ ap read none_is_no_action.1
  parse_alert_rule-rule_text (some (some a)) m =
      let text : Text = a.key ++ (b'=' ∷ a.value) in
      let solid : IsSolid text =
        All-append _ a.key _ (All-map _ _ (λ c t. ground arith) a.key m.1) (refl, m.3) in
      with_suffix text ∙ ap read (rw (trim-solid text solid) (rule_action-suffix a m))
