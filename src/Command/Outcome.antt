-- ===== src/Command/Outcome.antt =====
-- What a command's answer and its effects are.
use aio_t_cloud.Base.{
  Text, ◌==◌, ◌++◌, ℕ, true, Option, some, [], ◌∷◌, ◌≡◌, ◌∙◌, refl, sym, ap, arith, inl, inr,
  Bool-cases, Option-cases, is_truthy, or_default, suc, trim, to_lower,
}
use mathlib.Core.Path.{subst}
use aio_t_cloud.Constants.{ErrorCode}
use aio_t_cloud.Constants.KafkaTopics
use aio_t_cloud.Entities.{Device}
use aio_t_cloud.Json.{Printer}
use aio_t_cloud.Response.{ok, fail, Response-cases}
use aio_t_cloud.Database.{Store, World, Brokers, Publish, direct_command, find_by_device_id}
use aio_t_cloud.Device.{
  ChannelEvent, has_failed, merged_states, applied_value, handle_device_channel_event,
  store_channel_event, channel_failed, channel_applied,
}
use aio_t_cloud.Device.Channels.{IsStateStored, handle_device_channel_event_known}
use aio_t_cloud.Command.{
  DeviceAction, ActionSent, action_target, named_topic, optimistic_event, trigger_device_action,
  trigger_device_action_via_mqtt,
}

module _ {S : Store} where
  -- A command that is refused changes no device, publishes nothing and announces nothing.
  pub trigger_device_action-fail :
      (p : Printer) (b : Brokers) (now : ℕ) (user_id id : Text) (a : DeviceAction) (w : World S)
      (c : ErrorCode) (m : Text)
      → (trigger_device_action p b now user_id id a w).0 ≡ fail c m
      → let w' = (trigger_device_action p b now user_id id a w).1 in
        (w'.devices ≡ w.devices) × (w'.published ≡ w.published) × (w'.emitted ≡ w.emitted)
  unfolding trigger_device_action
  trigger_device_action-fail p b now user_id id a w c m h =
      elim (Response-cases (action_target user_id id a w)) [
        | inl (d, e) ↦ elim (Bool-cases (b.kafka_accepts w.attempts)) [
          | inl sent ↦ absurd (ground arith)
          | inr refused ↦ ground arith
        ]
        | inr (c', m', e) ↦ ground arith
      ]

  event_publishes_nothing :
      (p : Printer) (now : ℕ) (device_id : Text) (e : ChannelEvent) (d : Device) (v : World S)
      → find_by_device_id device_id v ≡ some d
      → (handle_device_channel_event p now device_id e v).published ≡ v.published
  unfolding handle_device_channel_event store_channel_event channel_failed channel_applied
  event_publishes_nothing p now device_id e d v known = ground arith

  optimistic_event-IsStateStored :
      (p : Printer) (now : ℕ) (d : Device) (a : DeviceAction) (v : World S)
      → find_by_device_id d.device_id v ≡ some d
      → is_truthy a.key ≡ true
      → IsStateStored p now d.device_id a.key
          (optimistic_event a)
          d
          (merged_states a.key a.value d)
          v
          (handle_device_channel_event p now d.device_id (optimistic_event a) v)
  unfolding has_failed trim to_lower ◌==◌
  optimistic_event-IsStateStored p now d a v known named =
      elim (handle_device_channel_event_known p now d.device_id (optimistic_event a) d v known) [
        | inl (bad, _) ↦ absurd (ground arith)
        | inr (_, inl (o, _)) ↦ absurd (ground arith)
        | inr (_, inr (key, o, stored)) ↦
            let is : a.key ≡ key = ground arith in
            subst
              (λ k.
                IsStateStored p now d.device_id k (optimistic_event a) d
                  (merged_states k (applied_value p (optimistic_event a)) d) v
                  (handle_device_channel_event p now d.device_id (optimistic_event a) v))
              (sym is) stored
      ]

  -- A direct command that is answered ok was published once, on a configured topic of an enabled broker,
  -- and has set its channel of the device to the value that was sent, and no other channel.
  pub trigger_device_action_via_mqtt-ok :
      (p : Printer) (b : Brokers) (now : ℕ) (d : Device) (a : DeviceAction) (topic : Option Text)
      (w : World S) (sent : ActionSent)
      → find_by_device_id d.device_id w ≡ some d
      → is_truthy a.key ≡ true
      → (trigger_device_action_via_mqtt p b now d a topic w).0 ≡ ok sent
      → (t : Text) × (v : World S) × (named_topic topic ≡ some t)
        × (b.mqtt_enabled ≡ true)
        × (v.published
            ≡ w.published ++ Publish.mqtt t (direct_command d.device_id a.key a.value) ∷ [])
        × (v.devices ≡ w.devices)
        × (v.emitted ≡ w.emitted)
        × IsStateStored p now d.device_id a.key
            (optimistic_event a)
            d
            (merged_states a.key a.value d)
            v
            (trigger_device_action_via_mqtt p b now d a topic w).1
        × ((trigger_device_action_via_mqtt p b now d a topic w).1.published
            ≡ w.published ++ Publish.mqtt t (direct_command d.device_id a.key a.value) ∷ [])
  unfolding trigger_device_action_via_mqtt
  trigger_device_action_via_mqtt-ok p b now d a topic w sent known named h =
      let v : World S = record w {
        published =
            w.published
            ++ Publish.mqtt (or_default topic []) (direct_command d.device_id a.key a.value) ∷ [];
        attempts = suc w.attempts;
      } in
      elim (Option-cases (named_topic topic)) [
        | inl o ↦ absurd (ground arith)
        | inr (t, o) ↦ elim (Bool-cases b.mqtt_enabled) [
          | inr off ↦ absurd (ground arith)
          | inl on ↦ elim (Bool-cases (b.mqtt_accepts w.attempts)) [
            | inr refused ↦ absurd (ground arith)
            | inl took ↦
                let is : or_default topic [] ≡ t = ground arith in
                let same : (trigger_device_action_via_mqtt p b now d a topic w).1
                    ≡ handle_device_channel_event p now d.device_id (optimistic_event a) v =
                  rw (o, is, on, took, trigger_device_action_via_mqtt) refl in
                let message : v.published
                    ≡ w.published
                      ++ Publish.mqtt t (direct_command d.device_id a.key a.value) ∷ [] =
                  ap
                    (λ x.
                      w.published ++ Publish.mqtt x (direct_command d.device_id a.key a.value) ∷ [])
                    is in
                (
                  t,
                  v,
                  o,
                  on,
                  message,
                  refl,
                  refl,
                  rw same (optimistic_event-IsStateStored p now d a v known named),
                  ap (λ (x : World S). x.published) same
                      ∙ event_publishes_nothing p now d.device_id (optimistic_event a) d v known
                      ∙ message,
                )
          ]
        ]
      ]
