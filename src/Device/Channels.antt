-- ===== src/Device/Channels.antt =====
-- What a channel event does to a known device: `handleDeviceChannelEvent` in
-- src/modules/device/device.service.ts.
use aio_t_cloud.Base.{
  Text, ◌==◌, ◌++◌, ℕ, Bool, true, false, not, Option, none, some, or_default, List, [], ◌∷◌, ◌≡◌,
  ◌⊎◌, refl, sym, ap, ◌∙◌, inl, inr, arith, Bool-cases, Option-cases, if◌then◌else◌,
}
use mathlib.Core.Option
use mathlib.Core.List.{append-nil, append_assoc}
use aio_t_cloud.Constants.{online, is_online}
use aio_t_cloud.Dict.{Dict, lookup, lookup-insert}
use aio_t_cloud.Entities.{Device}
use aio_t_cloud.Json.{Printer, to_text}
use aio_t_cloud.Repository.Updates.{row-update_one}
use aio_t_cloud.Database.{
  Store, World, Event, device_status, device_channel_state, device_action_result, device_row, emit,
  find_by_device_id,
}
use aio_t_cloud.Device.{
  seen_at, ChannelEvent, has_failed, named_key, channel_failed, channel_applied,
  store_channel_event, handle_device_channel_event, merged_states, applied_value,
}
use aio_t_cloud.Device.Presence.{
  announced, announced_negated, ChangesOnly, known_device, announce_if-emitted, announce_if_keeps,
}

-- The outcome of a command, as the dashboard hears of it.
abbrev pub outcome : ℕ → Text → Text → Option Text → Option (Option Text) → Event
outcome now device_id key value failed =
    device_action_result (record {
      device_id = device_id;
      key = key;
      value = value;
      failed = failed;
      changed_at = now;
    })

-- The device after a channel has taken a value.
abbrev pub with_state : ℕ → Dict Text → Device → Device
with_state now states d = record d {
  channel_states = some states;
  last_seen_at = some now;
  status = online;
}

-- The failures that are reported: one, if the event names a channel.
abbrev pub failure_of : Printer → ℕ → Text → ChannelEvent → List Event
failure_of p now device_id e = elim (named_key e) [
  | none ↦ []
  | some key ↦ outcome now device_id key (Option.map (to_text p) e.value) (some e.error) ∷ []
]

module _ {S : Store} where
  -- What a failed command has changed: the device is seen, its channel states are kept.
  pub record IsFailureStored (p : Printer) (now : ℕ) (device_id : Text) (e : ChannelEvent)
      (d : Device) (w w' : World S) : Type 0 where
    pub devices : ChangesOnly d (seen_at now d) w w'
    pub emitted :
        w'.emitted
        ≡ w.emitted ++ (failure_of p now device_id e ++ announced device_id now d.status online)
    pub telemetry : w'.telemetry ≡ w.telemetry
    pub unclaimed : w'.unclaimed ≡ w.unclaimed

  -- What a channel's new value has changed.
  pub record IsStateStored (p : Printer) (now : ℕ) (device_id key : Text) (e : ChannelEvent)
      (d : Device) (new_states : Dict Text) (w w' : World S) : Type 0 where
    pub devices : ChangesOnly d (with_state now new_states d) w w'
    pub emitted :
        w'.emitted
        ≡ w.emitted
          ++ device_channel_state device_id new_states now
            ∷ outcome now device_id key (some (applied_value p e)) none
            ∷ announced device_id now d.status online
    pub states :
        (j : Text)
        → lookup j new_states ≡ (
            if key == j
            then some (applied_value p e)
            else lookup j (or_default d.channel_states []))
    pub telemetry : w'.telemetry ≡ w.telemetry
    pub unclaimed : w'.unclaimed ≡ w.unclaimed

  emit_any-emitted :
      (f : Text → Event) (o : Option Text) (w : World S)
      → (elim o as (λ _. World S) [ none ↦ w | some key ↦ emit (f key) w ]).emitted
        ≡ w.emitted ++ elim o as (λ _. List Event) [ none ↦ [] | some key ↦ f key ∷ [] ]
  emit_any-emitted f none w = sym (append-nil w.emitted)
  emit_any-emitted f (some key) w = refl

  channel_failed-IsFailureStored :
      (p : Printer) (now : ℕ) (device_id : Text) (e : ChannelEvent) (d : Device) (w : World S)
      → device_row d.id w ≡ some d
      → IsFailureStored p now device_id e d w (channel_failed p now device_id e d w)
  unfolding channel_failed
  channel_failed-IsFailureStored p now device_id e d w stored =
      let one = λ (i : Text).
        row-update_one S.device_repository d (seen_at now) w.devices i (λ s. refl) stored in
      record {
        devices = λ i. ground (arith, one i);
        emitted =
            announce_if-emitted (not (is_online d.status)) device_id online now _
            ∙ ap
                (λ l.
                  l
                  ++ (if not (is_online d.status)
                      then device_status device_id online now ∷ []
                      else []))
                (emit_any-emitted
                  (λ key. outcome now device_id key (Option.map (to_text p) e.value) (some e.error))
                  (named_key e) _)
            ∙ append_assoc w.emitted _ _
            ∙ ap (λ l. w.emitted ++ (failure_of p now device_id e ++ l))
                (announced_negated device_id now d.status online);
        telemetry = ground arith;
        unclaimed = ground arith;
      }

  channel_applied-IsStateStored :
      (p : Printer) (now : ℕ) (device_id key : Text) (e : ChannelEvent) (d : Device) (w : World S)
      → device_row d.id w ≡ some d
      → IsStateStored p now device_id key e d
          (merged_states key (applied_value p e) d)
          w
          (channel_applied p now device_id e key d w)
  unfolding channel_applied
  channel_applied-IsStateStored p now device_id key e d w stored =
      let changed : Bool = not (is_online d.status) in
      let states : Dict Text = merged_states key (applied_value p e) d in
      record {
        devices = λ i.
            ap (λ t. S.device_repository.row t i)
              (announce_if_keeps changed device_id online now _).0
            ∙ row-update_one S.device_repository d (with_state now states) w.devices i (λ s. refl)
                stored;
        emitted =
            announce_if-emitted changed device_id online now _
            ∙ append_assoc (w.emitted ++ device_channel_state device_id states now ∷ []) _ _
            ∙ append_assoc w.emitted _ _
            ∙ ap
                (λ l.
                  w.emitted
                  ++ device_channel_state device_id states now
                    ∷ outcome now device_id key (some (applied_value p e)) none
                    ∷ l)
                (announced_negated device_id now d.status online);
        states = λ j. lookup-insert key j (applied_value p e) (or_default d.channel_states []);
        telemetry = (announce_if_keeps changed device_id online now _).1;
        unclaimed = (announce_if_keeps changed device_id online now _).2;
      }

  -- A channel event of a known device does one of three things. If it reports a failure, the device is
  -- marked online and its channel states are kept. If it names a channel, that channel's state becomes
  -- the reported value and every other channel keeps its own. If it names none, nothing changes.
  pub handle_device_channel_event_known :
      (p : Printer) (now : ℕ) (device_id : Text) (e : ChannelEvent) (d : Device) (w : World S)
      → find_by_device_id device_id w ≡ some d
      → let w' = handle_device_channel_event p now device_id e w in
        ((has_failed e ≡ true) × IsFailureStored p now device_id e d w w')
        ⊎ ((has_failed e ≡ false)
            × (((named_key e ≡ none) × (w' ≡ w))
                ⊎ ((key : Text) × (named_key e ≡ some key)
                    × IsStateStored p now device_id key e d
                        (merged_states key (applied_value p e) d)
                        w
                        w')))
  unfolding handle_device_channel_event store_channel_event
  handle_device_channel_event_known p now device_id e d w known =
      let (stored, _) = known_device device_id d w known in
      let same : handle_device_channel_event p now device_id e w
          ≡ store_channel_event p now device_id e d w =
        rw (known, handle_device_channel_event) refl in
      elim (Bool-cases (has_failed e)) [
        | inl bad ↦
            let failed : handle_device_channel_event p now device_id e w
                ≡ channel_failed p now device_id e d w =
              same ∙ rw (bad, store_channel_event) refl in
            inl (bad, rw failed (channel_failed-IsFailureStored p now device_id e d w stored))
        | inr good ↦ inr (
          good,
          elim (Option-cases (named_key e)) [
            | inl o ↦ inl (o, same ∙ rw (good, o, store_channel_event) refl)
            | inr (key, o) ↦
                let applied : handle_device_channel_event p now device_id e w
                    ≡ channel_applied p now device_id e key d w =
                  same ∙ rw (good, o, store_channel_event) refl in
                inr (
                  key,
                  o,
                  rw applied (channel_applied-IsStateStored p now device_id key e d w stored),
                )
          ],
        )
      ]
