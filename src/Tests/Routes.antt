-- ===== src/Tests/Routes.antt =====
-- Topics, registrations and boot configurations run on the concrete data.
use aio_t_cloud.Base.{
  Text, codes, ◌==◌, true, Option, none, some, ◌≡◌, ◌⊎◌, ◌∷◌, [], refl, arith, Bool-cases, inl, inr,
  eq_iff,
}
use aio_t_cloud.Constants.{mqtt, offline, new}
use aio_t_cloud.Dict.{lookup}
use aio_t_cloud.Entities.{Device, DeviceTemplate, DeviceMqttTopics, DeviceNetworkConfig}
use aio_t_cloud.Response.{ok}
use aio_t_cloud.Database.{World, device_row}
use aio_t_cloud.Topics.{
  default_telemetry_topic, default_status_topic, default_event_topic, default_ota_status_topic,
  default_command_topic, default_channel_command_topic, default_ota_topic,
}
use aio_t_cloud.Topics.Parsing.{IsTopicLevel}
use aio_t_cloud.Mqtt.{
  Registry, ResolvedMqttTopic, MqttTopicRole, event, to_telemetry, to_status, to_event,
  to_ota_status, downlink, route_of, resolve_custom_mqtt_topic, look_up, topics_of, role_of,
}
use aio_t_cloud.Mqtt.Routing.{route_of_lem}
use aio_t_cloud.Mqtt.Caching.{IsRole, resolve_custom_mqtt_topic_lem, look_up-hit}
use aio_t_cloud.Provision.{Registration, register_device, can_register, registered}
use aio_t_cloud.Provision.Names.{
  HasUniqueNames, IsRegistered, register_device-ok, start, then_step, registering,
  NamesRun-HasUniqueNames,
}
use aio_t_cloud.Tests.{rows, owner, pump, world}

esp_is_level : IsTopicLevel (codes "esp-1")
esp_is_level = ground arith

route_of_lem_example :
    (route_of (default_telemetry_topic (codes "esp-1")) ≡ to_telemetry (codes "esp-1"))
    × (route_of (default_status_topic (codes "esp-1")) ≡ to_status (codes "esp-1"))
    × (route_of (default_event_topic (codes "esp-1")) ≡ to_event (codes "esp-1"))
    × (route_of (default_ota_status_topic (codes "esp-1")) ≡ to_ota_status (codes "esp-1"))
    × (route_of (default_command_topic (codes "esp-1")) ≡ downlink)
    × (route_of (default_channel_command_topic (codes "esp-1") 3) ≡ downlink)
    × (route_of (default_ota_topic (codes "esp-1")) ≡ downlink)
route_of_lem_example = route_of_lem (codes "esp-1") esp_is_level 3

abbrev home_topics : DeviceMqttTopics
home_topics = record {
  telemetry = codes "home/pump/data";
  command = none;
  status = none;
  event = some (codes "home/pump/event");
  ota = none;
  channels = none;
}

abbrev home_config : DeviceNetworkConfig
home_config = record {
  api_endpoint = none;
  mqtt = some (record {
    broker = codes "broker";
    port = 1883;
    username = none;
    password = none;
    topics = home_topics;
  });
  http = none;
  kafka = none;
}

abbrev home : World rows
home = record world { devices = record pump { config = some home_config } ∷ [] }

abbrev no_topics : Registry
no_topics = record { resolved = []; missed_at = [] }

abbrev home_event : Text
home_event = codes "home/pump/event"

abbrev resolved_event : ResolvedMqttTopic
resolved_event = record { device_id = codes "esp-1"; role = event }

resolve_custom_mqtt_topic_lem_example :
    ((d : Device) × (t : DeviceMqttTopics) × (role : MqttTopicRole) × (device_row d.id home
        ≡ some d)
      × (d.push_channel ≡ mqtt)
      × (topics_of d ≡ some t)
      × IsRole home_event t role
      × (resolve_custom_mqtt_topic home_event home
          ≡ some (record { device_id = d.device_id; role = role })))
    ⊎ ((resolve_custom_mqtt_topic home_event home ≡ none)
        × ((i : Text) (d : Device) (t : DeviceMqttTopics) (role : MqttTopicRole)
            → device_row i home ≡ some d
            → d.push_channel ≡ mqtt
            → topics_of d ≡ some t
            → IsRole home_event t role
            → ⊥))
resolve_custom_mqtt_topic_lem_example = resolve_custom_mqtt_topic_lem home_event home

event_resolved : (look_up 9000 home_event no_topics home).0 ≡ some resolved_event
unfolding look_up resolve_custom_mqtt_topic role_of lookup ◌==◌
event_resolved = refl

look_up-hit_example :
    look_up 99000 home_event (look_up 9000 home_event no_topics home).1 world
    ≡ (some resolved_event, (look_up 9000 home_event no_topics home).1)
look_up-hit_example =
    look_up-hit 9000 99000 home_event no_topics home world resolved_event event_resolved

abbrev factoryless : Option Text
factoryless = none

abbrev newcomer : Registration
newcomer = record {
  device_id = codes "esp-3";
  template_id = codes "template-1";
  name = codes "Lamp";
  is_active = none;
}

newcomer_accepted :
    (register_device 9000 owner none newcomer world).0
    ≡ ok (registered 9000 owner none newcomer world)
unfolding register_device can_register ◌==◌
newcomer_accepted = refl

register_device-ok_example :
    (t : DeviceTemplate) × (rows.template_repository.row world.templates t.id ≡ some t)
    × (t.id ≡ newcomer.template_id)
    × (t.is_active ≡ true)
    × (codes "esp-3" ≡ newcomer.device_id)
    × (newcomer.name ≡ newcomer.name)
    × (newcomer.template_id ≡ newcomer.template_id)
    × (owner ≡ owner)
    × (factoryless ≡ factoryless)
    × ((offline ≡ offline) × (new ≡ new))
    × IsRegistered
        (registered 9000 owner none newcomer world)
        world
        (register_device 9000 owner none newcomer world).1
register_device-ok_example =
    register_device-ok 9000 owner none newcomer world (registered 9000 owner none newcomer world)
      newcomer_accepted

abbrev lonely : World rows
lonely = record world { devices = pump ∷ [] }

lonely_unique : HasUniqueNames lonely
lonely_unique i j d e at_i at_j same = elim (Bool-cases (pump.id == i)) [
  | inl first ↦ elim (Bool-cases (pump.id == j)) [
    | inl second ↦ ground (arith, eq_iff pump.id i, eq_iff pump.id j)
    | inr other ↦ absurd (ground arith)
  ]
  | inr other ↦ absurd (ground arith)
]

abbrev crowded : World rows
crowded = (register_device 9000 owner none newcomer lonely).1

NamesRun-HasUniqueNames_example : HasUniqueNames crowded
NamesRun-HasUniqueNames_example =
    NamesRun-HasUniqueNames {S = rows} {w = lonely} {v = crowded} lonely_unique
      (then_step start (registering 9000 owner none newcomer))
