-- ===== src/Tests/Inbound.antt =====
-- Kafka messages and the life of the consumer, run on the concrete data.
use aio_t_cloud.Base.{
  Text, codes, ◌==◌, ℕ, Bool, true, false, none, some, ◌≡◌, ◌∷◌, [], refl, arith, leb,
}
use aio_t_cloud.Constants.KafkaTopics
use aio_t_cloud.Json.{Json, Fields, str, num, field, end, obj, property}
use aio_t_cloud.Number.{natural}
use aio_t_cloud.Topics.{
  default_telemetry_topic, default_status_topic, default_event_topic, default_ota_status_topic,
}
use aio_t_cloud.Topics.Parsing.{IsTopicLevel}
use aio_t_cloud.Device.{handle_device_alert}
use aio_t_cloud.Mqtt.{Casts, Registry, handle_any}
use aio_t_cloud.Kafka.{created, handle_message, parsed, on_module_init}
use aio_t_cloud.Kafka.Delivery.{message_body, handle_message-handle_any}
use aio_t_cloud.Kafka.Retrying.{IsKept, run, timer_fires, crashes, run-on_module_init}
use aio_t_cloud.Tests.{printer, world}

abbrev casts : Casts
casts = record {
  channel_event =
      λ j. record { key = none; value = none; topic = none; status = none; error = none; body = j };
  ota_report = λ _. record { status = none; version = none; progress = none; error = none };
  device_id = λ _. codes "1";
}

abbrev unresolved : Registry
unresolved = record { resolved = []; missed_at = [] }

abbrev esp : Text
esp = codes "esp-2"

abbrev message : Fields
message = field (codes "deviceId") (str esp) (field (codes "temperature") (num (natural 21)) end)

message_named : property (codes "deviceId") message ≡ some (str esp)
unfolding property ◌==◌
message_named = refl

esp_level : IsTopicLevel esp
esp_level = ground arith

abbrev told : Json
told = message_body message

handle_message-handle_any_example :
    ((
      unresolved,
      handle_message printer casts 9000 KafkaTopics.telemetry (parsed (obj message)) world,
    )
      ≡ handle_any printer casts 9000 (default_telemetry_topic esp) told (unresolved, world))
    × ((
      unresolved,
      handle_message printer casts 9000 KafkaTopics.status (parsed (obj message)) world,
    )
        ≡ handle_any printer casts 9000 (default_status_topic esp) told (unresolved, world))
    × ((
      unresolved,
      handle_message printer casts 9000 KafkaTopics.device_events (parsed (obj message)) world,
    )
        ≡ handle_any printer casts 9000 (default_event_topic esp) told (unresolved, world))
    × ((
      unresolved,
      handle_message printer casts 9000 KafkaTopics.command (parsed (obj message)) world,
    )
        ≡ handle_any printer casts 9000 (default_event_topic esp) told (unresolved, world))
    × ((
      unresolved,
      handle_message printer casts 9000 KafkaTopics.ota_status (parsed (obj message)) world,
    )
        ≡ handle_any printer casts 9000 (default_ota_status_topic esp) told (unresolved, world))
    × (handle_message printer casts 9000 KafkaTopics.alert (parsed (obj message)) world
        ≡ handle_device_alert printer 9000 esp told world)
handle_message-handle_any_example =
    handle_message-handle_any printer casts 9000 esp message world message_named esp_level
      unresolved

-- A broker that refuses the first five attempts.
abbrev late_broker : ℕ → Bool
late_broker n = leb 5 n

run-on_module_init_example : IsKept late_broker (
    run late_broker
      (timer_fires ∷ crashes true ∷ crashes false ∷ timer_fires ∷ [])
      (on_module_init late_broker true created))
run-on_module_init_example =
    run-on_module_init late_broker (timer_fires ∷ crashes true ∷ crashes false ∷ timer_fires ∷ [])
