-- ===== src/Live/Sockets.antt =====
-- AppGateway: sockets, the rooms they have joined, and what is sent to a room. A socket is there from its
-- connection to its end, and its messages are served also while its token is being verified; `verify` is the service of `@nestjs/jwt`, a parameter.
use aio_t_cloud.Base.{
  Text, codes, ◌==◌, ◌&&◌, ◌++◌, Bool, true, false, not, Option, none, some, or_default, is_truthy,
  List, [], ◌∷◌, any, keep, map, if◌then◌else◌,
}
use aio_t_cloud.Constants.{RoleType, guest, TokenType, access_token, refresh_token}
use aio_t_cloud.Entities.{Device}
use aio_t_cloud.Dict.{Dict, lookup, insert}
use aio_t_cloud.Scope.{AccessScope, unrestricted, of_user, of_factory, in_scope}
use aio_t_cloud.Database.{Store, World, Event}
use aio_t_cloud.Live.Feed.{renamed, subject, is_live}

-- `SocketData`
pub record SocketData : Type 0 where
  pub user_id : Text
  pub role : RoleType
  pub factory_id : Option Text

-- The claims of a token that has been verified.
pub record Claims : Type 0 where
  pub holder : SocketData
  pub type : TokenType

-- `holder` is `client.data`, which is empty until the token has been verified.
pub record Socket : Type 0 where
  pub id : Text
  pub holder : Option SocketData
  pub rooms : List Text

pub record Gateway : Type 0 where
  pub sockets : List Socket
  pub physical_to_entity_id : Dict Text

abbrev pub opened : Gateway
opened = record { sockets = []; physical_to_entity_id = [] }

abbrev pub device_room : Text → Text
device_room device_id = codes "device:" ++ device_id

abbrev pub user_room : Text → Text
user_room user_id = codes "user:" ++ user_id

abbrev scope_of_holder : SocketData → AccessScope
scope_of_holder s = elim s.role [
  | guest ↦ unrestricted
  | _ ↦ elim s.factory_id [
    | none ↦ of_user s.user_id
    | some f ↦ if is_truthy f then of_factory f else of_user s.user_id
  ]
]

-- `resolveScopeFromSocketData`. Of empty data it makes `{ userId: undefined }`, and TypeORM leaves a column
-- that is `undefined` out of the `where` clause.
unfoldable pub resolve_scope_from_socket_data : Option SocketData → AccessScope
resolve_scope_from_socket_data none = unrestricted
resolve_scope_from_socket_data (some s) = scope_of_holder s

-- `client.join(room)`
abbrev pub join : Text → Socket → Socket
join room s = if any (λ r. r == room) s.rooms then s else record s { rooms = room ∷ s.rooms }

abbrev pub is_access : Claims → Bool
is_access c = elim c.type [ access_token ↦ true | refresh_token ↦ false ]

-- `client.handshake.auth?.token ?? client.handshake.query?.token`, where it is no empty text.
abbrev pub handshake_token : Option Text → Option Text → Option Text
handshake_token (some t) query = if is_truthy t then some t else none
handshake_token none (some t) = if is_truthy t then some t else none
handshake_token none none = none

-- `handleConnection`, down to the verification of the token: the socket is there, with no data yet, or it
-- is disconnected at once.
unfoldable pub handle_connection : Text → Option Text → Option Text → Gateway → Gateway
handle_connection id auth query g = elim (handshake_token auth query) [
  | none ↦ g
  | some _ ↦ record g { sockets = record { id = id; holder = none; rooms = [] } ∷ g.sockets }
]

-- The user of a token that is taken.
unfoldable pub admitted_holder : (Text → Option Claims) → Text → Option SocketData
admitted_holder verify token = elim (verify token) [
  | none ↦ none
  | some c ↦ if is_access c then some c.holder else none
]

abbrev pub settle : Text → SocketData → Socket → Socket
settle id h s = if s.id == id then join (user_room h.user_id) (record s { holder = some h }) else s

-- `handleConnection`, after the verification: the socket gets its data and its user's room, or it is
-- disconnected.
unfoldable pub finish_connection : (Text → Option Claims) → Text → Text → Gateway → Gateway
finish_connection verify id token g = elim (admitted_holder verify token) [
  | none ↦ record g { sockets = keep (λ s. not (s.id == id)) g.sockets }
  | some h ↦ record g { sockets = map (settle id h) g.sockets }
]

-- `handleDisconnect`, after which the library has taken the socket out of every room.
unfoldable pub handle_disconnect : Text → Gateway → Gateway
handle_disconnect id g = record g { sockets = keep (λ s. not (s.id == id)) g.sockets }

-- The sockets that a message to a room reaches: `server.to(room).emit(...)`.
abbrev pub reached : Text → Gateway → List Socket
reached room g = keep (λ s. any (λ r. r == room) s.rooms) g.sockets

-- What a socket is sent.
pub record Emission : Type 0 where
  pub socket_id : Text
  pub event : Event

-- `handleDeviceTelemetry`, `handleDeviceStatus`, `handleDeviceChannelState`, `handleDeviceActionResult`
-- and `handleDeviceOtaStatus`; no handler listens to alerts.
unfoldable pub forward : Event → Gateway → List Emission
forward e g =
    let entity = or_default (lookup (subject e) g.physical_to_entity_id) (subject e) in
    if is_live e
    then map (λ (s : Socket). record { socket_id = s.id; event = renamed entity e })
        (reached (device_room (subject e)) g)
    else []

module _ {S : Store} where
  -- `resolveOwnedDeviceByEntityId`
  unfoldable pub resolve_owned_device_by_entity_id : AccessScope → Text → World S → Option Device
  resolve_owned_device_by_entity_id scope entity_id w =
      S.device_repository.find_one (λ d. d.id == entity_id && in_scope scope d.user_id d.factory_id)
        w.devices

  -- The socket's part of `handleSubscribeDevice`.
  unfoldable pub subscribe : Text → World S → Socket → Socket
  subscribe entity_id w s =
      elim (resolve_owned_device_by_entity_id (resolve_scope_from_socket_data s.holder) entity_id
        w) [ none ↦ s | some d ↦ join (device_room d.device_id) s ]

  -- The entries that the subscriptions of a socket add to the map.
  unfoldable pub remember : Text → Text → World S → List Socket → Dict Text → Dict Text
  remember id entity_id w [] m = m
  remember id entity_id w (s ∷ ss) m =
      let rest = remember id entity_id w ss m in
      if s.id == id
      then elim (resolve_owned_device_by_entity_id (resolve_scope_from_socket_data s.holder)
          entity_id w) [ none ↦ rest | some d ↦ insert d.device_id d.id rest ]
      else rest

  -- `handleSubscribeDevice`, for the socket with an id.
  unfoldable pub handle_subscribe_device : Text → Text → World S → Gateway → Gateway
  handle_subscribe_device id entity_id w g = record {
    sockets = map (λ (s : Socket). if s.id == id then subscribe entity_id w s else s) g.sockets;
    physical_to_entity_id = remember id entity_id w g.sockets g.physical_to_entity_id;
  }
