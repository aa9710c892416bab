-- ===== src/Device/Alarms.antt =====
-- What the owner is told of an alert: `handleDeviceAlert` on the two forms of rule that gateways send.
use aio_t_cloud.Base.{
  Text, codes, ◌++◌, ℕ, true, Option, some, none, ◌∷◌, is_truthy, [], sym, ◌≡◌, ◌∙◌, refl, arith,
  All-append, All-map, trim, is_space, ap,
}
use aio_t_cloud.Json.{Json, str, Printer, is_object, member}
use aio_t_cloud.Database.{Store, World, device_alert, emit, find_by_device_id}
use aio_t_cloud.Entities.{Device}
use aio_t_cloud.Device.Rules.{
  ChannelAction, Numeral, Operator, number_of_numeral, AlertRule, operator_text,
}
use aio_t_cloud.Device.Rules.Parts.{IsNumeral, IsSolid, trim-solid}
use aio_t_cloud.Device.Rules.RoundTrip.{
  IsMetric, IsField, IsSuffix, rule_text, suffix_text, suffix_action, condition_text,
  condition_text-IsConditionText, IsConditionText-IsSolid, parse_alert_rule-rule_text,
  truthy_append,
}
use aio_t_cloud.Device.Rules.Anomalies.{
  anomaly_text, anomaly, parse_anomaly_rule-anomaly_text, parse_alert_rule-anomaly_text,
  text_trimmed,
}
use aio_t_cloud.Device.{
  handle_device_alert, parse_alert_payload, parse_alert_object, trimmed_text, rendered,
  rule_message, metric_label, value_text, action_text, anomaly_message, resolved_channels,
  ChannelTypes,
}

-- The rule that a text in the documented form stands for.
abbrev pub rule_of : Text → Text → Operator → Numeral → Option (Option ChannelAction) → AlertRule
rule_of metric field o n suffix = record {
  condition = record {
    metric = metric;
    field = field;
    operator = o;
    threshold = number_of_numeral n;
  };
  action = suffix_action suffix;
}

-- The text that an owner is sent.
abbrev pub alert_text : Device → Text → Text
alert_text d message = codes "[Cảnh báo] " ++ (d.name ++ (codes ": " ++ message))

-- What an action adds to the text.
abbrev pub shown_action : Option (Option ChannelAction) → Text
shown_action (some (some a)) = codes " → " ++ (a.key ++ (codes "=" ++ a.value))
shown_action (some none) = []
shown_action none = []

suffix_action-shown :
    (suffix : Option (Option ChannelAction))
    → action_text (suffix_action suffix) ≡ shown_action suffix
suffix_action-shown none = refl
suffix_action-shown (some none) = refl
suffix_action-shown (some (some a)) = refl

suffix_text-IsSolid :
    (suffix : Option (Option ChannelAction)) → IsSuffix suffix → IsSolid (suffix_text suffix)
unfolding is_space
suffix_text-IsSolid none h = tt
suffix_text-IsSolid (some none) h = (refl, (refl, (refl, (refl, (refl, tt)))))
suffix_text-IsSolid (some (some a)) h = (
  refl,
  All-append _ a.key (b'=' ∷ a.value) (All-map _ _ (λ c t. ground arith) a.key h.1) (refl, h.3),
)

-- A payload with a rule and no message of its own.
pub record IsRulePayload (payload : Json) (rule : Text) : Type 0 where
  pub is_record : is_object payload ≡ true
  pub no_message : trimmed_text (member (codes "message") payload) ≡ none
  pub has_rule : member (codes "rule") payload ≡ some (str rule)

trimmed_text-str :
    (s : Text) → trim s ≡ s → is_truthy s ≡ true → trimmed_text (some (str s)) ≡ some s
unfolding trimmed_text
trimmed_text-str s e t = rw (e, t)

abbrev pub metric_of : Json → Option Json
metric_of payload = member (codes "metric") payload

abbrev pub reading_of : Json → Option Json
reading_of payload = member (codes "reading") payload

abbrev pub channels_of : Json → Option ChannelTypes
channels_of payload = resolved_channels (member (codes "channels") payload)

module _ (p : Printer) (payload : Json) where
  parse_alert_payload-rendered :
      (rule message : Text)
      → IsRulePayload payload rule
      → trim rule ≡ rule
      → is_truthy rule ≡ true
      → rendered p (metric_of payload) (reading_of payload) rule ≡ some message
      → parse_alert_payload p payload
        ≡ some (record { message = message; channels = (channels_of payload) })
  unfolding parse_alert_payload
  parse_alert_payload-rendered rule message h e t r =
      let given : trimmed_text (member (codes "rule") payload) ≡ some rule =
        ap trimmed_text h.has_rule ∙ trimmed_text-str rule e t in
      let parsed : parse_alert_object p payload
          ≡ some (record { message = message; channels = (channels_of payload) }) =
        rw (h.no_message, given, r, parse_alert_object) refl in
      rw h.is_record parsed

  handle_device_alert-parsed :
      {S : Store} (now : ℕ) (device_id message : Text) (channels : Option ChannelTypes) (d : Device)
      (w : World S)
      → find_by_device_id device_id w ≡ some d
      → parse_alert_payload p payload ≡ some (record { message = message; channels = channels })
      → handle_device_alert p now device_id payload w
        ≡ emit (device_alert device_id (alert_text d message) channels now) w
  unfolding handle_device_alert
  handle_device_alert-parsed now device_id message channels d w known parsed =
      rw (known, parsed, handle_device_alert) refl

  -- An alert of a known device that carries a rule `<metric>.<field><operator><threshold>`, with or
  -- without an action, and no message of its own, emits one event, with the message
  -- `[Cảnh báo] <device>: <label>.<field> = <value> (quy tắc: <field> <operator> <threshold>)`, after
  -- which stands ` → <key>=<value>` if the rule has an action, and changes nothing else. The label is
  -- the payload's own metric, if it names one, and that of the rule otherwise. The names hold no white
  -- space and no separator of the grammar, and are not empty.
  pub handle_device_alert-rule_text :
      {S : Store} (now : ℕ) (device_id metric field : Text) (o : Operator) (n : Numeral)
      (suffix : Option (Option ChannelAction)) (d : Device) (w : World S)
      → IsMetric metric
      → IsField field
      → IsNumeral n
      → IsSuffix suffix
      → IsRulePayload payload (rule_text metric field o n suffix)
      → find_by_device_id device_id w ≡ some d
      → handle_device_alert p now device_id payload w
        ≡ emit
            (device_alert device_id
              (codes "[Cảnh báo] "
                ++ (d.name
                    ++ (codes ": "
                        ++ (metric_label (metric_of payload) metric
                            ++ (codes "."
                                ++ (field
                                    ++ (codes " = "
                                        ++ (value_text p (reading_of payload) field
                                            ++ (codes " (quy tắc: "
                                                ++ (field
                                                    ++ (codes " "
                                                        ++ (operator_text o
                                                            ++ (codes " "
                                                            ++ (p.number (number_of_numeral n)
                                                            ++ (codes ")"
                                                            ++ shown_action suffix)))))))))))))))
              (channels_of payload)
              now)
            w
  unfolding rendered rule_message
  handle_device_alert-rule_text now device_id metric field o n suffix d w h k l m given known =
      let rule : Text = rule_text metric field o n suffix in
      let solid : IsSolid rule =
        All-append _ (condition_text metric field o n) (suffix_text suffix)
          (IsConditionText-IsSolid _ (condition_text-IsConditionText metric field o n h k l))
          (suffix_text-IsSolid suffix m) in
      let shown : rendered p (metric_of payload) (reading_of payload) rule
          ≡ some (
              rule_message p (metric_of payload) (reading_of payload)
                (rule_of metric field o n suffix)) =
        rw (parse_alert_rule-rule_text metric field o n h k l suffix m, rendered) refl in
      rw (sym (suffix_action-shown suffix)) (
        handle_device_alert-parsed now device_id _ (channels_of payload) d w known (
          parse_alert_payload-rendered rule _ given (trim-solid rule solid)
            (truthy_append (condition_text metric field o n) (suffix_text suffix)
              (truthy_append metric _ h.0))
            shown))

  -- An alert of a known device that carries the gateway's report of an anomaly, and no message of its
  -- own, emits one event, with the message that is rendered from that report, and changes nothing
  -- else: the grammar of threshold rules, which is tried first, does not match it.
  pub handle_device_alert-anomaly_text :
      {S : Store} (now : ℕ) (device_id metric field : Text) (z mean std_dev : Numeral) (d : Device)
      (w : World S)
      → IsMetric metric
      → IsField field
      → IsNumeral z
      → IsNumeral mean
      → IsNumeral std_dev
      → IsRulePayload payload (anomaly_text metric field z mean std_dev)
      → find_by_device_id device_id w ≡ some d
      → handle_device_alert p now device_id payload w
        ≡ emit
            (device_alert device_id
              (alert_text d (
                anomaly_message p
                  (metric_of payload)
                  (reading_of payload)
                  (anomaly metric field z mean std_dev)))
              (channels_of payload)
              now)
            w
  unfolding rendered anomaly_message
  handle_device_alert-anomaly_text now device_id metric field z mean std_dev d w h k hz hm hs given
        known =
      let rule : Text = anomaly_text metric field z mean std_dev in
      let shown : rendered p (metric_of payload) (reading_of payload) rule
          ≡ some (
              anomaly_message p (metric_of payload) (reading_of payload)
                (anomaly metric field z mean std_dev)) =
        rw
          (
            parse_alert_rule-anomaly_text metric field z mean std_dev h k hz hm hs,
            parse_anomaly_rule-anomaly_text metric field z mean std_dev h k hz hm hs,
            rendered,
          )
          refl in
      handle_device_alert-parsed now device_id _ (channels_of payload) d w known (
        parse_alert_payload-rendered rule _ given
          (text_trimmed metric field z mean std_dev h k hz hm hs) (truthy_append metric _ h.0)
          shown)
