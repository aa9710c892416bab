-- ===== src/Tests/Assessments.antt =====
-- Assessments, warnings and commands run on the concrete data.
use aio_t_cloud.Base.{Text, codes, ◌==◌, ◌++◌, ℕ, ◌+◌, ◌≤◌, true, some, ◌≡◌, ◌∷◌, [], refl}
use aio_t_cloud.Constants.{decommissioned, bad_request}
use aio_t_cloud.Entities.{Device, DeviceTelemetry}
use aio_t_cloud.Json.{num, obj, field, end}
use aio_t_cloud.Number.{natural}
use aio_t_cloud.Repository.{patch}
use aio_t_cloud.Response.{ok, fail}
use aio_t_cloud.Lifecycle.{
  no_checks, check_records, get_telemetry_breach_counts, compute_factors, assess_device,
  assess_all_devices, is_in_service, with_assessment, score_of, retire,
}
use aio_t_cloud.Lifecycle.Scores.{assess_device_bounds}
use aio_t_cloud.Lifecycle.Rounds.{assessed, assess_all_devices_row, assess_device_retired}
use aio_t_cloud.Warning.Agreement.{warnings_of, check_records-warnings_of}
use aio_t_cloud.Database.{World, Publish, device_row, direct_command, find_by_device_id}
use aio_t_cloud.Command.{
  DeviceAction, action_sent, action_target, named_topic, optimistic_event, trigger_device_action,
  trigger_device_action_via_mqtt,
}
use aio_t_cloud.Constants.KafkaTopics
use aio_t_cloud.Command.Outcome.{trigger_device_action_via_mqtt-ok}
use aio_t_cloud.Device.{merged_states}
use aio_t_cloud.Device.Channels.{IsStateStored}
use aio_t_cloud.Tests.{rows, printer, brokers, owner, temperature, pump, world}

assess_device_bounds_example :
    ((get_telemetry_breach_counts 9000 pump world).breaches
      ≤ (get_telemetry_breach_counts 9000 pump world).total_checks)
    × ((compute_factors 9000 pump world).age ≤ 100)
    × ((compute_factors 9000 pump world).connectivity ≤ 100)
    × ((compute_factors 9000 pump world).telemetry_health ≤ 100)
    × ((assess_device 9000 pump world).0.score ≤ 100)
assess_device_bounds_example = assess_device_bounds 9000 pump world

assess_all_devices_row_example :
    device_row (codes "d1") (assess_all_devices 9000 world)
    ≡ patch is_in_service (assessed 9000 world) (device_row (codes "d1") world)
assess_all_devices_row_example = assess_all_devices_row 9000 world (codes "d1")

abbrev retired_world : World rows
retired_world = record world { devices = retire 8000 pump ∷ [] }

assess_device_retired_example :
    ((assess_device 9000 (retire 8000 pump) retired_world).0.stage ≡ decommissioned)
    × (device_row (codes "d1") (assess_device 9000 (retire 8000 pump) retired_world).1
        ≡ some (
            with_assessment 9000 decommissioned
              (score_of 9000 (retire 8000 pump) retired_world)
              (retire 8000 pump)))
unfolding ◌==◌
assess_device_retired_example =
    assess_device_retired 9000 (retire 8000 pump) retired_world refl refl

abbrev sample : ℕ → DeviceTelemetry
sample degrees = record {
  id = codes "t";
  device_id = codes "d1";
  payload = obj (field (codes "temperature") (num (natural degrees)) end);
  recorded_at = 9000;
}

check_records-warnings_of_example :
    (check_records pump (temperature ∷ []) (sample 21 ∷ sample 60 ∷ []) no_checks).breaches
    ≡ warnings_of pump (temperature ∷ []) (sample 21 ∷ sample 60 ∷ []) + no_checks.breaches
check_records-warnings_of_example =
    check_records-warnings_of pump (temperature ∷ []) (sample 21 ∷ sample 60 ∷ []) no_checks

abbrev switch_on : DeviceAction
switch_on = record { key = codes "relay1"; value = codes "ON" }

abbrev dimmed : DeviceAction
dimmed = record { key = codes "relay1"; value = codes "DIM" }

dimmed_refused :
    (trigger_device_action printer brokers 9000 owner (codes "d1") dimmed world).0
    ≡ fail bad_request (codes "error.deviceActionInvalidValue")
unfolding trigger_device_action action_target ◌==◌
dimmed_refused = refl

pump_is_known : find_by_device_id (codes "esp-1") world ≡ some pump
unfolding ◌==◌
pump_is_known = refl

abbrev relay_topic : Text
relay_topic = codes "home/pump"

sent_directly :
    (trigger_device_action_via_mqtt printer brokers 9000 pump switch_on (some relay_topic) world).0
    ≡ ok (action_sent 9000 switch_on relay_topic)
unfolding trigger_device_action_via_mqtt
sent_directly = refl

trigger_device_action_via_mqtt-ok_example :
    (t : Text) × (v : World rows) × (named_topic (some relay_topic) ≡ some t)
    × (brokers.mqtt_enabled ≡ true)
    × (v.published
        ≡ world.published
          ++ Publish.mqtt t (direct_command (codes "esp-1") switch_on.key switch_on.value) ∷ [])
    × (v.devices ≡ world.devices)
    × (v.emitted ≡ world.emitted)
    × IsStateStored printer 9000
        (codes "esp-1")
        switch_on.key
        (optimistic_event switch_on)
        pump
        (merged_states switch_on.key switch_on.value pump)
        v
        (trigger_device_action_via_mqtt printer brokers 9000 pump switch_on
          (some relay_topic)
          world).1
    × ((trigger_device_action_via_mqtt printer brokers 9000 pump switch_on
          (some relay_topic)
          world).1.published
        ≡ world.published
          ++ Publish.mqtt t (direct_command (codes "esp-1") switch_on.key switch_on.value) ∷ [])
trigger_device_action_via_mqtt-ok_example =
    trigger_device_action_via_mqtt-ok printer brokers 9000 pump switch_on (some relay_topic) world
      (action_sent 9000 switch_on relay_topic) pump_is_known refl sent_directly
