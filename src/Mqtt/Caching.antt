-- ===== src/Mqtt/Caching.antt =====
-- Custom topics: what the database says of a topic, and what the registry remembers of it.
use aio_t_cloud.Base.{
  Text, eq_refl, eq_iff, Option, ◌==◌, ◌≢◌, ◌↔◌, ◌||◌, Bool-cases, ℕ, ◌-◌, true, false, ◌&&◌, none,
  some, and_then, ◌≡◌, ◌⊎◌, refl, ap, ◌∙◌, inl, inr, arith, Option-cases, if◌then◌else◌, ltb,
}
use mathlib.Core.Path.{subst}
use aio_t_cloud.Constants.{mqtt}
use aio_t_cloud.Dict.{lookup, lookup-insert}
use aio_t_cloud.Entities.{Device, DeviceMqttTopics}
use aio_t_cloud.Database.{Store, World, device_row}
use aio_t_cloud.Mqtt.{
  ResolvedMqttTopic, Registry, MqttTopicRole, telemetry, status, event, command, is_topic,
  is_channel_topic, get, is_recent_miss, record_miss, clear, is_mqtt, role_of, topics_of, has_topic,
  resolve_for, resolve_custom_mqtt_topic, look_up, negative_ttl_ms,
}

-- The role that a device's topics give to a topic; of several the first counts.
abbrev pub IsRole : Text → DeviceMqttTopics → MqttTopicRole → Type 0
IsRole topic t telemetry = t.telemetry ≡ topic
IsRole topic t status = (t.telemetry ≢ topic) × (t.status ≡ some topic)
IsRole topic t event = (t.telemetry ≢ topic) × (t.status ≢ some topic) × (t.event ≡ some topic)
IsRole topic t command =
    (t.telemetry ≢ topic)
    × (t.status ≢ some topic)
    × (t.event ≢ some topic)
    × ((t.command ≡ some topic)
        ⊎ ((t.ota ≡ some topic) ⊎ (is_channel_topic topic t.channels ≡ true)))

is_topic_iff : (topic : Text) (o : Option Text) → (is_topic topic o ≡ true) ↔ (o ≡ some topic)
is_topic_iff topic none = ground arith
is_topic_iff topic (some t) = ground (arith, eq_iff t topic)

commanded :
    (topic : Text) (t : DeviceMqttTopics)
    → (is_topic topic t.command || is_topic topic t.ota || is_channel_topic topic t.channels) ≡ true
    → (t.command ≡ some topic) ⊎ ((t.ota ≡ some topic) ⊎ (is_channel_topic topic t.channels ≡ true))
commanded topic t h = elim (Bool-cases (is_topic topic t.command)) [
  | inl a ↦ inl ((is_topic_iff topic t.command).0 a)
  | inr a ↦ elim (Bool-cases (is_topic topic t.ota)) [
    | inl b ↦ inr (inl ((is_topic_iff topic t.ota).0 b))
    | inr b ↦ inr (inr (ground arith))
  ]
]

role_of-IsRole :
    (topic : Text) (t : DeviceMqttTopics) (role : MqttTopicRole)
    → role_of topic t ≡ some role
    → IsRole topic t role
unfolding role_of
role_of-IsRole topic t role h = elim (Bool-cases (t.telemetry == topic)) [
  | inl a ↦
      let is : telemetry ≡ role = ground arith in
      subst (IsRole topic t) is ((eq_iff t.telemetry topic).0 a)
  | inr a ↦
      let no : t.telemetry ≢ topic = λ e. ground (arith, (eq_iff t.telemetry topic).1 e) in
      elim (Bool-cases (is_topic topic t.status)) [
        | inl b ↦
            let is : status ≡ role = ground arith in
            subst (IsRole topic t) is (no, (is_topic_iff topic t.status).0 b)
        | inr b ↦
            let no' : t.status ≢ some topic =
              λ e. ground (arith, (is_topic_iff topic t.status).1 e) in
            elim (Bool-cases (is_topic topic t.event)) [
              | inl c ↦
                  let is : event ≡ role = ground arith in
                  subst (IsRole topic t) is (no, no', (is_topic_iff topic t.event).0 c)
              | inr c ↦
                  let no'' : t.event ≢ some topic =
                    λ e. ground (arith, (is_topic_iff topic t.event).1 e) in
                  let is : command ≡ role = ground arith in
                  subst (IsRole topic t) is (no, no', no'', (commanded topic t (ground arith)))
            ]
      ]
]

IsRole-has_topic :
    (topic : Text) (d : Device) (t : DeviceMqttTopics) (role : MqttTopicRole)
    → topics_of d ≡ some t
    → IsRole topic t role
    → has_topic topic d ≡ true
IsRole-has_topic topic d t telemetry e h = ground (arith, eq_iff t.telemetry topic)
IsRole-has_topic topic d t status e (_, h) = ground (arith, is_topic_iff topic t.status)
IsRole-has_topic topic d t event e (_, _, h) = ground (arith, is_topic_iff topic t.event)
IsRole-has_topic topic d t command e (_, _, _, inl h) = ground (arith, is_topic_iff topic t.command)
IsRole-has_topic topic d t command e (_, _, _, inr (inl h)) =
    ground (arith, is_topic_iff topic t.ota)
IsRole-has_topic topic d t command e (_, _, _, inr (inr h)) = ground arith

-- A device that uses a topic has a role for it.
has_topic-resolve_for :
    (topic : Text) (d : Device)
    → has_topic topic d ≡ true
    → (t : DeviceMqttTopics) × (role : MqttTopicRole) × (topics_of d ≡ some t)
      × (role_of topic t ≡ some role)
      × (resolve_for topic d ≡ some (record { device_id = d.device_id; role = role }))
unfolding role_of
has_topic-resolve_for topic d h = elim (Option-cases (topics_of d)) [
  | inl o ↦ absurd (ground arith)
  | inr (t, o) ↦ elim (Option-cases (role_of topic t)) [
    | inl no_role ↦ absurd (ground arith)
    | inr (role, e) ↦ (t, role, o, e, ground arith)
  ]
]

is_recent_miss-record_miss :
    (now now' : ℕ) (topic : Text) (r : Registry)
    → is_recent_miss now' topic (record_miss now topic r) ≡ ltb (now' - now) negative_ttl_ms
is_recent_miss-record_miss now now' topic r =
    ground (arith, lookup-insert topic topic now r.missed_at, eq_refl topic)

module _ {S : Store} where
  -- A custom topic is resolved to the name of a stored device on the MQTT channel to whose topics the
  -- topic belongs in that role; or it is left unresolved, and no stored device on that channel gives it a
  -- role.
  pub resolve_custom_mqtt_topic_lem :
      (topic : Text) (w : World S)
      → ((d : Device) × (t : DeviceMqttTopics) × (role : MqttTopicRole) × (device_row d.id w
            ≡ some d)
          × (d.push_channel ≡ mqtt)
          × (topics_of d ≡ some t)
          × IsRole topic t role
          × (resolve_custom_mqtt_topic topic w
              ≡ some (record { device_id = d.device_id; role = role })))
        ⊎ ((resolve_custom_mqtt_topic topic w ≡ none)
            × ((i : Text) (d : Device) (t : DeviceMqttTopics) (role : MqttTopicRole)
                → device_row i w ≡ some d
                → d.push_channel ≡ mqtt
                → topics_of d ≡ some t
                → IsRole topic t role
                → ⊥))
  unfolding resolve_custom_mqtt_topic
  resolve_custom_mqtt_topic_lem topic w =
      let uses = λ (d : Device). is_mqtt d.push_channel && has_topic topic d in
      elim (Option-cases (S.device_repository.find_one uses w.devices)) [
        | inl o ↦ inr (
          ap (λ x. and_then x (resolve_for topic)) o,
          λ i d t role stored on_mqtt has used. ground (
            arith,
            S.device_repository.find_one-none uses w.devices i d o stored,
            IsRole-has_topic topic d t role has used,
            on_mqtt,
          ),
        )
        | inr (d, o) ↦
            let (stored, fits) = S.device_repository.find_one-some uses w.devices d o in
            let (t, role, has, e, resolved) = has_topic-resolve_for topic d (ground arith) in
            inl (
              d,
              t,
              role,
              stored,
              ground arith,
              has,
              role_of-IsRole topic t role e,
              ap (λ x. and_then x (resolve_for topic)) o ∙ resolved,
            )
      ]

  look_up_cached :
      (now : ℕ) (topic : Text) (r : Registry) (w : World S) (found : ResolvedMqttTopic)
      → get topic r ≡ some found
      → look_up now topic r w ≡ (some found, r)
  unfolding look_up
  look_up_cached now topic r w found h = rw (h, look_up) refl

  look_up_remembers :
      (now : ℕ) (topic : Text) (r : Registry) (w : World S) (found : ResolvedMqttTopic)
      → (look_up now topic r w).0 ≡ some found
      → get topic (look_up now topic r w).1 ≡ some found
  unfolding look_up
  look_up_remembers now topic r w found h =
      ground (arith, lookup-insert topic topic found r.resolved, eq_refl topic)

  look_up_missed :
      (now : ℕ) (topic : Text) (r : Registry) (w : World S)
      → get topic r ≡ none
      → is_recent_miss now topic r ≡ false
      → resolve_custom_mqtt_topic topic w ≡ none
      → (look_up now topic r w).1 ≡ record_miss now topic r
  unfolding look_up
  look_up_missed now topic r w h k o = ground arith

  -- A lookup of a topic that is in neither map, or whose miss has expired, asks the database.
  look_up_fresh :
      (now : ℕ) (topic : Text) (r : Registry) (w : World S)
      → get topic r ≡ none
      → (look_up now topic r w).0
        ≡ (if is_recent_miss now topic r then none else resolve_custom_mqtt_topic topic w)
  unfolding look_up
  look_up_fresh now topic r w h = ground arith

  -- A resolved topic is remembered: whatever happens to the database and the clock, the next lookup
  -- gives the same answer and keeps the registry.
  pub look_up-hit :
      (now now' : ℕ) (topic : Text) (r : Registry) (w w' : World S) (found : ResolvedMqttTopic)
      → (look_up now topic r w).0 ≡ some found
      → look_up now' topic (look_up now topic r w).1 w' ≡ (some found, (look_up now topic r w).1)
  look_up-hit now now' topic r w w' found h =
      look_up_cached now' topic (look_up now topic r w).1 w' found
        (look_up_remembers now topic r w found h)

  -- A topic that the database did not know is not asked for again within 60 s, whatever happens to
  -- the database; from then on, and after a change of configuration, it is.
  pub look_up-miss :
      (now now' : ℕ) (topic : Text) (r : Registry) (w w' : World S)
      → get topic r ≡ none
      → is_recent_miss now topic r ≡ false
      → resolve_custom_mqtt_topic topic w ≡ none
      → let r' = (look_up now topic r w).1 in
        ((look_up now' topic r' w').0
          ≡ (if ltb (now' - now) negative_ttl_ms then none else resolve_custom_mqtt_topic topic w'))
        × ((look_up now' topic (clear r') w').0 ≡ resolve_custom_mqtt_topic topic w')
  unfolding lookup
  look_up-miss now now' topic r w w' h k o = rw (look_up_missed now topic r w h k o) (
    look_up_fresh now' topic (record_miss now topic r) w' h
        ∙ ap (λ b. if b then none else resolve_custom_mqtt_topic topic w')
            (is_recent_miss-record_miss now now' topic r),
    look_up_fresh now' topic (clear (record_miss now topic r)) w' refl,
  )
