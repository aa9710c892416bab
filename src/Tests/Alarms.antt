-- ===== src/Tests/Alarms.antt =====
-- Alerts of devices run on the concrete data.
use aio_t_cloud.Base.{
  Text, codes, ◌==◌, ◌++◌, to_lower, trim, is_space, true, false, Option, none, some, ◌≡◌, refl,
  arith, [],
}
use aio_t_cloud.Json.{Json, str, num, obj, field, end, property}
use aio_t_cloud.Number.{natural}
use aio_t_cloud.Database.{device_alert, emit}
use aio_t_cloud.Device.Rules.{
  ChannelAction, Numeral, above, operator_text, number_of_numeral, parse_alert_rule,
  parse_anomaly_rule,
}
use aio_t_cloud.Device.Rules.Parts.{IsNumeral}
use aio_t_cloud.Device.Rules.RoundTrip.{
  IsMetric, IsField, IsSuffix, rule_text, parse_alert_rule-rule_text,
}
use aio_t_cloud.Device.Rules.Anomalies.{anomaly, anomaly_text}
use aio_t_cloud.Device.{handle_device_alert, value_text, anomaly_message, trimmed_text}
use aio_t_cloud.Device.Alarms.{
  IsRulePayload, alert_text, shown_action, rule_of, metric_of, reading_of, channels_of,
  handle_device_alert-rule_text, handle_device_alert-anomaly_text,
}
use aio_t_cloud.Tests.{printer, pump, world}
use aio_t_cloud.Tests.Signals.{pump_known}

-- The examples of the source's comments.
threshold_rule :
    parse_alert_rule (codes "sensor.apms>10:relay2=ON")
    ≡ some (record {
      condition = record {
        metric = codes "sensor";
        field = codes "apms";
        operator = above;
        threshold = record { is_negative = false; numerator = 10; below = 0 };
      };
      action = some (record { key = codes "relay2"; value = codes "ON" });
    })
unfolding parse_alert_rule trim ◌==◌ to_lower
threshold_rule = refl

warning_rule :
    parse_alert_rule (codes "telemetry.motorCurrent>0.4:none")
    ≡ some (record {
      condition = record {
        metric = codes "telemetry";
        field = codes "motorCurrent";
        operator = above;
        threshold = record { is_negative = false; numerator = 4; below = 9 };
      };
      action = none;
    })
unfolding parse_alert_rule trim ◌==◌ to_lower
warning_rule = refl

anomaly_rule :
    parse_anomaly_rule (codes "telemetry.motorCurrent z=-3.48 (mean=0.49, stddev=0.11)")
    ≡ some (record {
      metric = codes "telemetry";
      field = codes "motorCurrent";
      z = record { is_negative = true; numerator = 348; below = 99 };
      mean = record { is_negative = false; numerator = 49; below = 99 };
      std_dev = record { is_negative = false; numerator = 11; below = 99 };
    })
unfolding parse_anomaly_rule trim ◌==◌
anomaly_rule = refl

abbrev sensor : Text
sensor = codes "sensor"

abbrev apms : Text
apms = codes "apms"

abbrev decimal_of : Text → Text → Numeral
decimal_of whole decimals = record { is_negative = false; whole = whole; decimals = decimals }

abbrev ten : Numeral
ten = decimal_of (codes "10") []

abbrev switch_on : Option (Option ChannelAction)
switch_on = some (some (record { key = codes "relay2"; value = codes "ON" }))

sensor_fits : IsMetric sensor
unfolding is_space
sensor_fits = ground arith

apms_fits : IsField apms
unfolding is_space
apms_fits = ground arith

ten_fits : IsNumeral ten
ten_fits = ground arith

switch_on_fits : IsSuffix switch_on
unfolding is_space
switch_on_fits = ground arith

parse_alert_rule-rule_text_example :
    parse_alert_rule (rule_text sensor apms above ten switch_on)
    ≡ some (rule_of sensor apms above ten switch_on)
parse_alert_rule-rule_text_example =
    parse_alert_rule-rule_text sensor apms above ten sensor_fits apms_fits ten_fits switch_on
      switch_on_fits

abbrev fired : Text → Json
fired rule = obj (
    field (codes "metric") (str sensor) (
      field (codes "reading") (obj (field apms (num (natural 11)) end))
        (field (codes "rule") (str rule) end)))

fired-IsRulePayload : (rule : Text) → IsRulePayload (fired rule) rule
unfolding trimmed_text ◌==◌ property
fired-IsRulePayload rule = record { is_record = refl; no_message = refl; has_rule = refl }

abbrev rule_fired : Json
rule_fired = fired (rule_text sensor apms above ten switch_on)

handle_device_alert-rule_text_example :
    handle_device_alert printer 9000 (codes "esp-1") rule_fired world
    ≡ emit
        (device_alert
          (codes "esp-1")
          (codes "[Cảnh báo] "
            ++ (pump.name
                ++ (codes ": "
                    ++ (sensor
                        ++ (codes "."
                            ++ (apms
                                ++ (codes " = "
                                    ++ (value_text printer (reading_of rule_fired) apms
                                        ++ (codes " (quy tắc: "
                                            ++ (apms
                                                ++ (codes " "
                                                    ++ (operator_text above
                                                        ++ (codes " "
                                                            ++ (printer.number
                                                            (number_of_numeral ten)
                                                            ++ (codes ")"
                                                            ++ shown_action switch_on)))))))))))))))
          (channels_of rule_fired)
          9000)
        world
unfolding property ◌==◌
handle_device_alert-rule_text_example =
    handle_device_alert-rule_text printer rule_fired 9000 (codes "esp-1") sensor apms above ten
      switch_on pump world sensor_fits apms_fits ten_fits switch_on_fits
      (fired-IsRulePayload (rule_text sensor apms above ten switch_on)) pump_known

abbrev half : Numeral
half = decimal_of (codes "0") (codes "5")

half_fits : IsNumeral half
half_fits = ground arith

abbrev anomaly_fired : Json
anomaly_fired = fired (anomaly_text sensor apms half ten half)

handle_device_alert-anomaly_text_example :
    handle_device_alert printer 9000 (codes "esp-1") anomaly_fired world
    ≡ emit
        (device_alert
          (codes "esp-1")
          (alert_text pump (
            anomaly_message printer
              (metric_of anomaly_fired)
              (reading_of anomaly_fired)
              (anomaly sensor apms half ten half)))
          (channels_of anomaly_fired)
          9000)
        world
handle_device_alert-anomaly_text_example =
    handle_device_alert-anomaly_text printer anomaly_fired 9000 (codes "esp-1") sensor apms half ten
      half pump world sensor_fits apms_fits half_fits ten_fits half_fits
      (fired-IsRulePayload (anomaly_text sensor apms half ten half)) pump_known
