-- ===== src/Live/Rooms.antt =====
-- Who hears of a device over the web socket: a socket that has subscribed to it.
use aio_t_cloud.Base.{Text, Option, some, ◌++◌, List, [], ◌∷◌, Memᴰ, All, ◌≡◌, ◌⊎◌}
use aio_t_cloud.Entities.{Device}
use aio_t_cloud.Database.{Store, World, Event, device_row}
use aio_t_cloud.Live.Visible.{IsSeenBy}
use aio_t_cloud.Live.{
  Claims, Socket, Gateway, opened, device_room, user_room, Emission, handle_connection,
  finish_connection, handle_disconnect, handle_subscribe_device, subject,
}

module _ (S : Store) (verify : Text → Option Claims) where
  -- What happens to the gateway, in the world at that time. A connection is settled when its token has
  -- been verified.
  pub data Signal : Type 0 where
    connects : (id : Text) (auth query : Option Text) → Signal
    settles : (id token : Text) → Signal
    subscribes : (id entity_id : Text) (w : World S) → Signal
    disconnects : (id : Text) → Signal

  abbrev pub react : Signal → Gateway → Gateway
  react (connects id auth query) g = handle_connection id auth query g
  react (settles id token) g = finish_connection verify id token g
  react (subscribes id entity_id w) g = handle_subscribe_device id entity_id w g
  react (disconnects id) g = handle_disconnect id g

  -- The gateway after some signals, the latest first.
  abbrev pub run : List Signal → Gateway
  run [] = opened
  run (x ∷ xs) = react x (run xs)

  -- A subscription of a connected socket to a stored device that its data at that time let it see.
  pub record IsGranted (xs : List Signal) (socket_id device_id : Text) : Type 0 where
    pub entity_id : Text
    pub world : World S
    pub device : Device
    pub before : List Signal
    pub after : List Signal
    pub asked : xs ≡ after ++ subscribes socket_id entity_id world ∷ before
    pub asker : Socket
    pub connected : Memᴰ asker (run before).sockets
    pub same : asker.id ≡ socket_id
    pub stored : device_row device.id world ≡ some device
    pub meant : device.id ≡ entity_id
    pub named : device.device_id ≡ device_id
    pub allowed : IsSeenBy asker.holder device

  abbrev IsAuthorised : List Signal → Socket → Text → Type 0
  IsAuthorised xs s room =
      ((u : Text) × (room ≡ user_room u))
      ⊎ ((d : Text) × (room ≡ device_room d) × IsGranted xs s.id d)

  abbrev IsSound : List Signal → Socket → Type 0
  IsSound xs s = All (IsAuthorised xs s) s.rooms

  -- What a socket is sent of an event: it has been granted the device.
  pub record IsHeard (xs : List Signal) (e : Event) (m : Emission) : Type 0 where
    pub socket : Socket
    pub connected : Memᴰ socket (run xs).sockets
    pub receiver : m.socket_id ≡ socket.id
    pub granted : IsGranted xs socket.id (subject e)
