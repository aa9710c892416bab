-- ===== src/Mqtt/Lookup.antt =====
-- Which device a custom topic belongs to, and the cache of the answers.
use aio_t_cloud.Base.{
  Text, ◌==◌, ℕ, ◌-◌, Bool, true, false, ◌&&◌, ◌||◌, Option, none, some, and_then, List, [], any,
  ltb, if◌then◌else◌,
}
use aio_t_cloud.Constants.{DevicePushChannel, mqtt, http, kafka}
use aio_t_cloud.Dict.{Dict, lookup, insert, remove}
use aio_t_cloud.Entities.{Device, DeviceMqttTopics, DeviceMqttChannelTopic}
use aio_t_cloud.Database.{Store, World}

pub data MqttTopicRole : Type 0 where
  telemetry status event command : MqttTopicRole

pub record ResolvedMqttTopic : Type 0 where
  pub device_id : Text
  pub role : MqttTopicRole

-- `MqttTopicRegistryService`: its two maps.
pub record Registry : Type 0 where
  pub resolved : Dict ResolvedMqttTopic
  pub missed_at : Dict ℕ

-- `NEGATIVE_TTL_MS`
abbrev pub negative_ttl_ms : ℕ
negative_ttl_ms = 60000

-- `get`
abbrev pub get : Text → Registry → Option ResolvedMqttTopic
get topic r = lookup topic r.resolved

-- `isRecentMiss`
abbrev pub is_recent_miss : ℕ → Text → Registry → Bool
is_recent_miss now topic r = elim (lookup topic r.missed_at) [
  | none ↦ false
  | some t ↦ ltb (now - t) negative_ttl_ms
]

-- `recordHit`
abbrev pub record_hit : Text → ResolvedMqttTopic → Registry → Registry
record_hit topic found r = record r {
  resolved = insert topic found r.resolved;
  missed_at = remove topic r.missed_at;
}

-- `recordMiss`
abbrev pub record_miss : ℕ → Text → Registry → Registry
record_miss now topic r = record r { missed_at = insert topic now r.missed_at }

-- `clear`
abbrev pub clear : Registry → Registry
clear r = record r { resolved = []; missed_at = [] }

abbrev pub is_mqtt : DevicePushChannel → Bool
is_mqtt mqtt = true
is_mqtt http = false
is_mqtt kafka = false

-- `a === topic` on a value that may be missing.
abbrev pub is_topic : Text → Option Text → Bool
is_topic topic none = false
is_topic topic (some t) = t == topic

-- `channels?.some((channel) => channel.topic === topic)`
abbrev pub is_channel_topic : Text → Option (List DeviceMqttChannelTopic) → Bool
is_channel_topic topic none = false
is_channel_topic topic (some cs) = any (λ c. c.topic == topic) cs

-- The role of a topic among a device's topics.
unfoldable pub role_of : Text → DeviceMqttTopics → Option MqttTopicRole
role_of topic t =
    if t.telemetry == topic
    then some telemetry
    else if is_topic topic t.status
    then some status
    else if is_topic topic t.event
    then some event
    else if is_topic topic t.command || is_topic topic t.ota || is_channel_topic topic t.channels
    then some command
    else none

-- `device.config?.mqtt?.topics`
abbrev pub topics_of : Device → Option DeviceMqttTopics
topics_of d = and_then (and_then d.config (λ c. c.mqtt)) (λ m. some m.topics)

-- The `WHERE` clause: the topic is one of the device's.
abbrev pub has_topic : Text → Device → Bool
has_topic topic d = elim (topics_of d) [
  | none ↦ false
  | some t ↦
      t.telemetry == topic
      || is_topic topic t.status
      || is_topic topic t.event
      || is_topic topic t.command
      || is_topic topic t.ota
      || is_channel_topic topic t.channels
]

abbrev pub resolve_for : Text → Device → Option ResolvedMqttTopic
resolve_for topic d = and_then (topics_of d) (λ t.
    and_then (role_of topic t) (λ role. some (record { device_id = d.device_id; role = role })))

module _ {S : Store} where
  -- `resolveCustomMqttTopic`
  unfoldable pub resolve_custom_mqtt_topic : Text → World S → Option ResolvedMqttTopic
  resolve_custom_mqtt_topic topic w =
      and_then
        (S.device_repository.find_one (λ d. is_mqtt d.push_channel && has_topic topic d) w.devices)
        (resolve_for topic)

  -- The lookup of `resolveCustomTopic`: the answer, and the registry after it.
  unfoldable pub look_up : ℕ → Text → Registry → World S → Option ResolvedMqttTopic × Registry
  look_up now topic r w = elim (get topic r) [
    | some found ↦ (some found, r)
    | none ↦
        if is_recent_miss now topic r then (none, r) else elim (resolve_custom_mqtt_topic topic w) [
          | none ↦ (none, record_miss now topic r)
          | some found ↦ (some found, record_hit topic found r)
        ]
  ]
