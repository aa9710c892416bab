-- ===== src/Mqtt/Routing.antt =====
-- Every default topic of a device reaches the handler that it is meant for, and the cloud's own
-- messages, which the broker echoes, reach none.
use aio_t_cloud.Base.{
  Text, codes, ◌==◌, ◌++◌, ℕ, Bool, true, false, ◌||◌, Option, none, some, is_some, ◌≡◌, refl, ◌∷◌,
  ◌∙◌, if◌then◌else◌,
}
use aio_t_cloud.Topics.{
  default_telemetry_topic, default_status_topic, default_event_topic, default_ota_status_topic,
  default_command_topic, default_channel_command_topic, default_ota_topic, device_topic, slash,
  telemetry_topic_regex, status_topic_regex, event_topic_regex, ota_status_topic_regex,
  command_topic_regex, channel_command_topic_regex, ota_topic_regex, is_channel_command, decimal,
}
use aio_t_cloud.Topics.Parsing.{IsTopicLevel, device_then-topic}
use aio_t_cloud.Topics.RoundTrip.{is_channel_command-decimal}
use aio_t_cloud.Mqtt.{
  Route, to_telemetry, to_status, to_event, to_ota_status, downlink, custom, route_of,
}

-- The route by what follows the device in the topic.
abbrev suffix_route : Text → Text → Route
suffix_route d s =
    if s == codes "/telemetry"
    then to_telemetry d
    else if s == codes "/status"
    then to_status d
    else if s == codes "/event"
    then to_event d
    else if s == codes "/ota/status"
    then to_ota_status d
    else if s == codes "/command" || is_channel_command s || s == codes "/ota"
    then downlink
    else custom

-- The route by what the seven patterns capture.
unfoldable routed :
    Option Text
    → Option Text
    → Option Text
    → Option Text
    → Option Text
    → Option Text
    → Option Text
    → Route
routed (some x) b c e f g h = to_telemetry x
routed none (some x) c e f g h = to_status x
routed none none (some x) e f g h = to_event x
routed none none none (some x) f g h = to_ota_status x
routed none none none none f g h = if is_some f || is_some g || is_some h then downlink else custom

route_of-routed :
    (a b c e f g h : Option Text)
    → (elim a as (λ _. Route) [
      | some x ↦ to_telemetry x
      | none ↦ elim b as (λ _. Route) [
        | some x ↦ to_status x
        | none ↦ elim c as (λ _. Route) [
          | some x ↦ to_event x
          | none ↦ elim e as (λ _. Route) [
            | some x ↦ to_ota_status x
            | none ↦ if is_some f || is_some g || is_some h then downlink else custom
          ]
        ]
      ]
    ])
      ≡ routed a b c e f g h
unfolding routed
route_of-routed (some x) b c e f g h = refl
route_of-routed none (some x) c e f g h = refl
route_of-routed none none (some x) e f g h = refl
route_of-routed none none none (some x) f g h = refl
route_of-routed none none none none f g h = refl

-- What the seven tests decide, where they all capture the same device.
decided :
    (d : Text) (a b c e f g h : Bool)
    → routed
        (if a then some d else none)
        (if b then some d else none)
        (if c then some d else none)
        (if e then some d else none)
        (if f then some d else none)
        (if g then some d else none)
        (if h then some d else none)
      ≡ (if a
          then to_telemetry d
          else if b
          then to_status d
          else if c
          then to_event d
          else if e
          then to_ota_status d
          else if f || g || h
          then downlink
          else custom)
unfolding routed
decided d true b c e f g h = refl
decided d false true c e f g h = refl
decided d false false true e f g h = refl
decided d false false false true f g h = refl
decided d false false false false true g h = refl
decided d false false false false false true h = refl
decided d false false false false false false true = refl
decided d false false false false false false false = refl

module _ (d : Text) (level : IsTopicLevel d) where
  route_of-device_topic :
      (s : Text) → route_of (device_topic d (slash ∷ s)) ≡ suffix_route d (slash ∷ s)
  unfolding route_of telemetry_topic_regex status_topic_regex event_topic_regex
      ota_status_topic_regex command_topic_regex channel_command_topic_regex ota_topic_regex
  route_of-device_topic s =
      let topic : Text = device_topic d (slash ∷ s) in
      route_of-routed (telemetry_topic_regex topic) (status_topic_regex topic)
        (event_topic_regex topic) (ota_status_topic_regex topic) (command_topic_regex topic)
        (channel_command_topic_regex topic) (ota_topic_regex topic)
      ∙ rw
          (
            device_then-topic (λ t. t == codes "/telemetry") d s level,
            device_then-topic (λ t. t == codes "/status") d s level,
            device_then-topic (λ t. t == codes "/event") d s level,
            device_then-topic (λ t. t == codes "/ota/status") d s level,
            device_then-topic (λ t. t == codes "/command") d s level,
            device_then-topic is_channel_command d s level,
            device_then-topic (λ t. t == codes "/ota") d s level,
          )
          (decided d (slash ∷ s == codes "/telemetry") (slash ∷ s == codes "/status")
            (slash ∷ s == codes "/event") (slash ∷ s == codes "/ota/status")
            (slash ∷ s == codes "/command") (is_channel_command (slash ∷ s))
            (slash ∷ s == codes "/ota"))

  route_of-channel : (n : ℕ) → route_of (default_channel_command_topic d n) ≡ downlink
  unfolding default_channel_command_topic ◌==◌
  route_of-channel n =
      route_of-device_topic (codes "channel/" ++ (decimal n ++ codes "/command"))
      ∙ rw (is_channel_command-decimal n) refl

  -- For a device whose name is not empty and holds no slash: its telemetry, status, event and OTA
  -- status topics reach those four handlers under the device's name, and the four kinds of topic that
  -- the cloud publishes on are ignored.
  pub route_of_lem :
      (n : ℕ)
      → (route_of (default_telemetry_topic d) ≡ to_telemetry d)
        × (route_of (default_status_topic d) ≡ to_status d)
        × (route_of (default_event_topic d) ≡ to_event d)
        × (route_of (default_ota_status_topic d) ≡ to_ota_status d)
        × (route_of (default_command_topic d) ≡ downlink)
        × (route_of (default_channel_command_topic d n) ≡ downlink)
        × (route_of (default_ota_topic d) ≡ downlink)
  unfolding default_telemetry_topic default_status_topic default_event_topic
      default_ota_status_topic default_command_topic default_ota_topic is_channel_command ◌==◌
  route_of_lem n = (
    route_of-device_topic (codes "telemetry"),
    route_of-device_topic (codes "status"),
    route_of-device_topic (codes "event"),
    route_of-device_topic (codes "ota/status"),
    route_of-device_topic (codes "command"),
    route_of-channel n,
    route_of-device_topic (codes "ota"),
  )
