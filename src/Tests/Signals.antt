-- ===== src/Tests/Signals.antt =====
-- Messages of devices run on the concrete data.
use aio_t_cloud.Base.{
  Text, codes, ◌==◌, ◌++◌, true, false, none, some, is_some, ◌≡◌, ◌↔◌, ◌⊎◌, ◌∷◌, refl, map, arith,
  if◌then◌else◌,
}
use aio_t_cloud.Constants.{online}
use aio_t_cloud.Json.{Json, str, num, obj, field, end}
use aio_t_cloud.Number.{natural}
use aio_t_cloud.Repository.{patch}
use aio_t_cloud.Topics.{telemetry_topic_regex, default_telemetry_topic}
use aio_t_cloud.Topics.Parsing.{IsTopicLevel}
use aio_t_cloud.Topics.RoundTrip.{telemetry_topic_regex_iff}
use aio_t_cloud.Database.{World, device_row, device_telemetry, find_by_device_id}
use aio_t_cloud.Entities.{UnclaimedDevice}
use aio_t_cloud.Device.Strangers.{IsSeen, Follows, record_unclaimed_device_lem}
use aio_t_cloud.Device.{
  record_unclaimed_device, ChannelEvent, record_telemetry, seen_at, normalized_payload,
  handle_device_status_message, handle_device_channel_event, has_failed, named_key, merged_states,
  applied_value, sweep_offline_devices, is_stale, cutoff_at, went_offline, stale_devices,
}
use aio_t_cloud.Device.Presence.{ChangesOnly, announced, reading, record_telemetry_known}
use aio_t_cloud.Device.Channels.{IsFailureStored, IsStateStored, handle_device_channel_event_known}
use aio_t_cloud.Device.Offline.{go_offline, sweep_offline_devices_lem}
use aio_t_cloud.Tests.{rows, printer, pump, fan, world}

abbrev warm : Json
warm = obj (field (codes "temperature") (num (natural 21)) end)

pub pump_known : find_by_device_id (codes "esp-1") world ≡ some pump
unfolding ◌==◌
pump_known = refl

fan_known : find_by_device_id (codes "esp-2") world ≡ some fan
unfolding ◌==◌
fan_known = refl

abbrev after_reading : World rows
after_reading = record_telemetry printer 9000 (codes "esp-2") warm world

record_telemetry_known_example :
    ChangesOnly fan (seen_at 9000 fan) world after_reading
    × (after_reading.emitted
        ≡ world.emitted
          ++ device_telemetry (codes "esp-2") (normalized_payload warm) 9000
            ∷ announced (codes "esp-2") 9000 fan.status online)
    × ((i : Text)
        → rows.telemetry_repository.row after_reading.telemetry i ≡ (
            if (reading 9000 fan warm world).id == i
            then some (reading 9000 fan warm world)
            else rows.telemetry_repository.row world.telemetry i))
    × (after_reading.unclaimed ≡ world.unclaimed)
record_telemetry_known_example =
    record_telemetry_known printer 9000 (codes "esp-2") warm fan world fan_known

abbrev after_goodbye : World rows
after_goodbye =
    handle_device_status_message printer 9000 (codes "esp-1") (str (codes "offline")) world

abbrev switched_on : ChannelEvent
switched_on = record {
  key = some (codes "relay1");
  value = some (str (codes "ON"));
  topic = none;
  status = none;
  error = none;
  body = warm;
}

abbrev after_switch : World rows
after_switch = handle_device_channel_event printer 9000 (codes "esp-1") switched_on world

handle_device_channel_event_known_example :
    ((has_failed switched_on ≡ true)
      × IsFailureStored printer 9000 (codes "esp-1") switched_on pump world after_switch)
    ⊎ ((has_failed switched_on ≡ false)
        × (((named_key switched_on ≡ none) × (after_switch ≡ world))
            ⊎ ((key : Text) × (named_key switched_on ≡ some key)
                × IsStateStored printer 9000
                    (codes "esp-1")
                    key
                    switched_on
                    pump
                    (merged_states key (applied_value printer switched_on) pump)
                    world
                    after_switch)))
handle_device_channel_event_known_example =
    handle_device_channel_event_known printer 9000 (codes "esp-1") switched_on pump world pump_known

abbrev swept : World rows
swept = sweep_offline_devices 90000 world

sweep_offline_devices_lem_example :
    ((i : Text)
      → device_row i swept ≡ patch (is_stale (cutoff_at 90000)) go_offline (device_row i world))
    × (swept.emitted ≡ world.emitted ++ map (went_offline 90000) (stale_devices 90000 world))
    × (swept.telemetry ≡ world.telemetry)
    × (swept.unclaimed ≡ world.unclaimed)
    × (swept.published ≡ world.published)
sweep_offline_devices_lem_example = sweep_offline_devices_lem 90000 world

telemetry_topic_regex_iff_example :
    (telemetry_topic_regex (codes "devices/esp-1/telemetry") ≡ some (codes "esp-1")) ↔ (
      (codes "devices/esp-1/telemetry" ≡ default_telemetry_topic (codes "esp-1"))
      × IsTopicLevel (codes "esp-1"))
telemetry_topic_regex_iff_example =
    telemetry_topic_regex_iff (codes "devices/esp-1/telemetry") (codes "esp-1")

esp_level : IsTopicLevel (codes "esp-1")
esp_level = ground arith

record_unclaimed_device_lem_example :
    (u : UnclaimedDevice) × IsSeen printer 9000
      (codes "esp-9")
      (codes "telemetry")
      warm
      u
      world
      (record_unclaimed_device printer 9000 (codes "esp-9") (codes "telemetry") warm world).1
    × Follows (codes "esp-9") u world
    × ((record_unclaimed_device printer 9000 (codes "esp-9") (codes "telemetry") warm world).0
        ≡ is_some u.ignored_at)
record_unclaimed_device_lem_example =
    record_unclaimed_device_lem printer 9000 (codes "esp-9") (codes "telemetry") warm world
