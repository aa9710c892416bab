-- ===== src/Provision/Channels.antt =====
-- The channel topics of a boot configuration: `buildMqttTopics`.
use aio_t_cloud.Base.{
  Text, ℕ, suc, true, some, or_default, is_truthy, List, [], ◌∷◌, ◌≡◌, refl, arith,
}
use aio_t_cloud.Topics.{default_channel_command_topic}
use aio_t_cloud.Entities.{
  ActionFieldDefinition, DeviceMqttChannelTopic, Device, DeviceTemplate, DeviceMqttTopics,
}
use aio_t_cloud.Provision.{channels_of, channel_topic, build_mqtt_topics, is_channel_based}

-- One channel for each action, in their order, numbered from `before + 1`.
abbrev pub AreChannelsOf :
    Text
    → List DeviceMqttChannelTopic
    → ℕ
    → List ActionFieldDefinition
    → List DeviceMqttChannelTopic
    → Type 0
AreChannelsOf device_id overrides before [] [] = Unit
AreChannelsOf device_id overrides before (_ ∷ _) [] = ⊥
AreChannelsOf device_id overrides before [] (_ ∷ _) = ⊥
AreChannelsOf device_id overrides before (a ∷ rest) (c ∷ cs) =
    (c.index ≡ suc before)
    × (c.key ≡ a.key)
    × (c.label ≡ a.label)
    × (is_truthy c.topic ≡ true)
    × AreChannelsOf device_id overrides (suc before) rest cs

-- No channel is left without a topic.
topic_is_named :
    (device_id : Text) (overrides : List DeviceMqttChannelTopic) (key : Text) (index : ℕ)
    → is_truthy (channel_topic device_id overrides key index) ≡ true
unfolding default_channel_command_topic
topic_is_named device_id overrides key index = ground arith

channels_of-AreChannelsOf :
    (device_id : Text) (overrides : List DeviceMqttChannelTopic) (before : ℕ)
    (actions : List ActionFieldDefinition)
    → AreChannelsOf device_id overrides before actions
        (channels_of device_id overrides before actions)
unfolding channels_of
channels_of-AreChannelsOf device_id overrides before [] = tt
channels_of-AreChannelsOf device_id overrides before (a ∷ rest) = (
  refl,
  refl,
  refl,
  topic_is_named device_id overrides a.key (suc before),
  channels_of-AreChannelsOf device_id overrides (suc before) rest,
)

-- For a template of relays with actions, a device is told one channel for each action, in the order
-- of the actions, numbered from 1, with the action's key and label and a topic that is not empty; its
-- other topics are kept.
pub build_mqtt_topics_lem :
    (d : Device) (t : DeviceTemplate) (base : DeviceMqttTopics) (a : ActionFieldDefinition)
    (rest : List ActionFieldDefinition)
    → is_channel_based t.type ≡ true
    → t.action_schema ≡ some (a ∷ rest)
    → (cs : List DeviceMqttChannelTopic) × ((build_mqtt_topics d (some t) base).channels ≡ some cs)
      × AreChannelsOf d.device_id (or_default base.channels []) 0 (a ∷ rest) cs
      × ((build_mqtt_topics d (some t) base).telemetry ≡ base.telemetry)
      × ((build_mqtt_topics d (some t) base).command ≡ base.command)
      × ((build_mqtt_topics d (some t) base).event ≡ base.event)
unfolding build_mqtt_topics
build_mqtt_topics_lem d t base a rest h k = (
  channels_of d.device_id (or_default base.channels []) 0 (a ∷ rest),
  ground arith,
  channels_of-AreChannelsOf d.device_id (or_default base.channels []) 0 (a ∷ rest),
  ground arith,
  ground arith,
  ground arith,
)
