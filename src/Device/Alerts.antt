-- ===== src/Device/Alerts.antt =====
-- Alerts that a device or a gateway has raised itself: `handleDeviceAlert` and `parseAlertPayload`.
use aio_t_cloud.Base.{
  Text, codes, ◌==◌, ◌++◌, ℕ, suc, Option, none, some, and_then, is_truthy, is_empty, trim, List,
  [], ◌∷◌, if◌then◌else◌,
}
use aio_t_cloud.Constants.{NotificationChannelType, zalo, web_push}
use aio_t_cloud.Number.{natural}
use aio_t_cloud.Json.{
  Json, Items, nil, cons, str, num, arr, obj, Printer, to_text, is_object, unless_null, member,
  property,
}
use aio_t_cloud.Topics.{decimal}
use aio_t_cloud.Database.{Store, World, device_alert, emit, find_by_device_id}
use aio_t_cloud.Device.Rules.{
  ChannelAction, AlertRule, AnomalyRule, operator_text, parse_alert_rule, parse_anomaly_rule,
}
use aio_t_cloud.Device.Unclaimed.{record_unclaimed_device}

abbrev pub ChannelTypes : Type 0
ChannelTypes = List NotificationChannelType

-- What `parseAlertPayload` returns.
pub record ParsedAlert : Type 0 where
  pub message : Text
  pub channels : Option ChannelTypes

-- The string values of the enum.
abbrev pub channel_name : NotificationChannelType → Text
channel_name zalo = codes "ZALO"
channel_name web_push = codes "WEB_PUSH"

-- A text that is a value of the enum.
abbrev channel_named : Text → ChannelTypes → ChannelTypes
channel_named s rest =
    if s == channel_name zalo
    then zalo ∷ rest
    else if s == channel_name web_push
    then web_push ∷ rest
    else rest

-- `channels.filter(...)`
unfoldable pub valid_channels : Items → ChannelTypes
valid_channels nil = []
valid_channels (cons (str s) xs) = channel_named s (valid_channels xs)
valid_channels (cons _ xs) = valid_channels xs

-- `resolvedChannels`
abbrev pub resolved_channels : Option Json → Option ChannelTypes
resolved_channels (some (arr xs)) =
    if is_empty (valid_channels xs) then none else some (valid_channels xs)
resolved_channels _ = none

abbrev count_items : Items → ℕ
count_items nil = 0
count_items (cons _ xs) = suc (count_items xs)

-- The item whose index is the key.
unfoldable pub item : Text → ℕ → Items → Option Json
item key i nil = none
item key i (cons x xs) = if decimal i == key then some x else item key (suc i) xs

-- `record[key]`, less what objects inherit.
unfoldable pub own_property : Text → Json → Option Json
unfolding item
own_property key (arr xs) =
    if key == codes "length" then some (num (natural (count_items xs))) else item key 0 xs
own_property key (obj fs) = property key fs
own_property key _ = none

-- `reading && typeof reading === 'object' ? reading : undefined`
abbrev pub reading_record : Option Json → Option Json
reading_record reading = and_then reading (λ r. if is_object r then some r else none)

-- `${readingRecord?.[field] ?? '?'}`
unfoldable pub value_text : Printer → Option Json → Text → Text
unfolding own_property
value_text p reading field =
    to_text p
      (unless_null (and_then (reading_record reading) (own_property field)) (str (codes "?")))

-- `typeof metric === 'string' && metric ? metric : parsed.metric`
abbrev pub metric_label : Option Json → Text → Text
metric_label (some (str m)) parsed = if is_truthy m then m else parsed
metric_label _ parsed = parsed

abbrev pub action_text : Option ChannelAction → Text
action_text none = []
action_text (some a) = codes " → " ++ (a.key ++ (codes "=" ++ a.value))

unfoldable pub rule_message : Printer → Option Json → Option Json → AlertRule → Text
unfolding value_text
rule_message p metric reading r =
    metric_label metric r.condition.metric
    ++ (codes "."
        ++ (r.condition.field
            ++ (codes " = "
                ++ (value_text p reading r.condition.field
                    ++ (codes " (quy tắc: "
                        ++ (r.condition.field
                            ++ (codes " "
                                ++ (operator_text r.condition.operator
                                    ++ (codes " "
                                        ++ (p.number r.condition.threshold
                                            ++ (codes ")" ++ action_text r.action)))))))))))

unfoldable pub anomaly_message : Printer → Option Json → Option Json → AnomalyRule → Text
unfolding value_text
anomaly_message p metric reading r =
    metric_label metric r.metric
    ++ (codes "."
        ++ (r.field
            ++ (codes " = "
                ++ (value_text p reading r.field
                    ++ (codes " bất thường (z="
                        ++ (p.to_fixed 2 r.z
                            ++ (codes ", trung bình="
                                ++ (p.number r.mean
                                    ++ (codes ", độ lệch chuẩn="
                                        ++ (p.number r.std_dev ++ codes ")"))))))))))

-- The message that a rule is rendered to.
unfoldable pub rendered : Printer → Option Json → Option Json → Text → Option Text
unfolding rule_message anomaly_message
rendered p metric reading rule = elim (parse_alert_rule rule) [
  | some r ↦ some (rule_message p metric reading r)
  | none ↦ elim (parse_anomaly_rule rule) [
    | some r ↦ some (anomaly_message p metric reading r)
    | none ↦ none
  ]
]

-- `typeof x === 'string' && x.trim()`: the text, trimmed, where there is one.
unfoldable pub trimmed_text : Option Json → Option Text
trimmed_text (some (str s)) = if is_truthy (trim s) then some (trim s) else none
trimmed_text _ = none

-- `parseAlertPayload`, for an object.
unfoldable pub parse_alert_object : Printer → Json → Option ParsedAlert
unfolding valid_channels rendered trimmed_text
parse_alert_object p payload =
    let channels = resolved_channels (member (codes "channels") payload) in
    elim (trimmed_text (member (codes "message") payload)) [
      | some message ↦ some (record { message = message; channels = channels })
      | none ↦ and_then (trimmed_text (member (codes "rule") payload)) λ rule.
          and_then
            (rendered p (member (codes "metric") payload) (member (codes "reading") payload) rule)
            (λ message. some (record { message = message; channels = channels }))
    ]

-- `parseAlertPayload`
unfoldable pub parse_alert_payload : Printer → Json → Option ParsedAlert
unfolding parse_alert_object
parse_alert_payload p payload = if is_object payload then parse_alert_object p payload else none

module _ {S : Store} where
  -- `handleDeviceAlert`
  unfoldable pub handle_device_alert : Printer → ℕ → Text → Json → World S → World S
  handle_device_alert p now device_id payload w = elim (find_by_device_id device_id w) [
    | none ↦ (record_unclaimed_device p now device_id (codes "alert") payload w).1
    | some d ↦ elim (parse_alert_payload p payload) [
      | none ↦ w
      | some a ↦
          emit
            (device_alert device_id (codes "[Cảnh báo] " ++ (d.name ++ (codes ": " ++ a.message)))
              a.channels now)
            w
    ]
  ]
