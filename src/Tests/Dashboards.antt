-- ===== src/Tests/Dashboards.antt =====
-- Streams and sockets run on the concrete data.
use aio_t_cloud.Base.{Text, codes, ◌==◌, true, Option, none, some, ◌≡◌, [], ◌∷◌, List, All, Memᴰ}
use aio_t_cloud.Constants.{user, access_token, online}
use aio_t_cloud.Database.{Event, device_status, device_row}
use aio_t_cloud.Entities.{Device}
use aio_t_cloud.Scope.{of_user}
use aio_t_cloud.Live.{Claims, stream_device_events, is_wanted, is_live, subject, renamed}
use aio_t_cloud.Live.Confined.{IsAllowed, stream_device_events_lem}
use aio_t_cloud.Live.Rooms.{Signal, connects, settles, subscribes}
use aio_t_cloud.Tests.{rows, owner, world}

abbrev went_online : Event
went_online = device_status (codes "esp-2") online 9000

abbrev shown : List Text
shown = codes "d2" ∷ []

stream_device_events_lem_example :
    All
      (IsAllowed (of_user owner) shown world (went_online ∷ []))
      (stream_device_events (of_user owner) shown world (went_online ∷ []))
    × ((d : Device) (e : Event)
        → device_row d.id world ≡ some d
        → is_wanted (of_user owner) shown d ≡ true
        → Memᴰ e (went_online ∷ [])
        → subject e ≡ d.device_id
        → is_live e ≡ true
        → (f : Event) × (v : Text) × Memᴰ f
            (stream_device_events (of_user owner) shown world (went_online ∷ []))
          × (f ≡ renamed v e))
stream_device_events_lem_example =
    stream_device_events_lem (of_user owner) shown world (went_online ∷ [])

-- One token is good.
abbrev tokens : Text → Option Claims
tokens t = elim (t == codes "good") [
  | true ↦ some (record {
    holder = record { user_id = owner; role = user; factory_id = none };
    type = access_token;
  })
  | _ ↦ none
]

abbrev session : List (Signal rows tokens)
session =
    subscribes (codes "s1") (codes "d2") world
    ∷ settles (codes "s1") (codes "good")
    ∷ connects (codes "s1") (some (codes "good")) none
    ∷ []
