-- ===== src/Live/Feed.antt =====
-- The stream of a dashboard: the events of the devices that it asked for and may see.
use aio_t_cloud.Base.{
  Text, ◌==◌, ◌&&◌, Bool, Option, none, some, List, [], ◌∷◌, any, is_empty, if◌then◌else◌,
}
use aio_t_cloud.Entities.{Device}
use aio_t_cloud.Dict.{Dict, lookup, insert}
use aio_t_cloud.Scope.{AccessScope, in_scope}
use aio_t_cloud.Database.{
  Store, World, Event, device_telemetry, device_status, device_channel_state, device_action_result,
  device_alert, device_ota_status,
}

-- `new Map(devices.map((device) => [device.deviceId, device.id]))`, onto a map.
unfoldable pub entity_ids : Dict Text → List Device → Dict Text
unfolding insert
entity_ids m [] = m
entity_ids m (d ∷ ds) = entity_ids (insert d.device_id d.id m) ds

-- The device that an event is about.
abbrev pub subject : Event → Text
subject (device_telemetry d payload t) = d
subject (device_status d status t) = d
subject (device_channel_state d states t) = d
subject (device_action_result r) = r.device_id
subject (device_alert d message channels t) = d
subject (device_ota_status e) = e.device_id

-- The event under another id of the device.
unfoldable pub renamed : Text → Event → Event
renamed i (device_telemetry d payload t) = device_telemetry i payload t
renamed i (device_status d status t) = device_status i status t
renamed i (device_channel_state d states t) = device_channel_state i states t
renamed i (device_action_result r) = device_action_result (record r { device_id = i })
renamed i (device_alert d message channels t) = device_alert i message channels t
renamed i (device_ota_status e) = device_ota_status (record e { device_id = i })

-- The five kinds of event that are forwarded.
abbrev pub is_live : Event → Bool
is_live (device_alert d message channels t) = Bool.false
is_live _ = Bool.true

-- `filter(...)` and `map(...)` of an event.
abbrev pub frame_of : Dict Text → Event → Option Event
frame_of m e =
    if is_live e
    then elim (lookup (subject e) m) [ none ↦ none | some i ↦ some (renamed i e) ]
    else none

abbrev pub frames_of : Dict Text → List Event → List Event
frames_of m [] = []
frames_of m (e ∷ es) = elim (frame_of m e) [ none ↦ frames_of m es | some f ↦ f ∷ frames_of m es ]

-- The test of the query's `where` clause.
abbrev pub is_wanted : AccessScope → List Text → Device → Bool
is_wanted scope ids d = any (λ i. i == d.id) ids && in_scope scope d.user_id d.factory_id

module _ {S : Store} where
  -- `resolveEntityIdByPhysicalDeviceId`
  unfoldable pub resolve_entity_id_by_physical_device_id :
      AccessScope → List Text → World S → Dict Text
  resolve_entity_id_by_physical_device_id scope ids w =
      if is_empty ids
      then []
      else entity_ids [] (S.device_repository.find (is_wanted scope ids) w.devices)

  -- `streamDeviceEvents`: the frames of the events that follow, for the devices as they are at the
  -- subscription.
  unfoldable pub stream_device_events : AccessScope → List Text → World S → List Event → List Event
  stream_device_events scope ids w es =
      frames_of (resolve_entity_id_by_physical_device_id scope ids w) es
