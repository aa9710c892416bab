-- ===== src/Live.antt =====
-- What dashboards are told while they are open: the stream of server-sent events, `streamDeviceEvents`
-- in src/modules/device/device.service.ts, and the rooms of the web socket,
-- src/modules/websocket/app.gateway.ts. RxJS, socket.io and the heartbeat are outside the program.
pub mod Visible
pub mod Confined
pub mod Rooms
mod Feed
mod Sockets
unfoldable pub use Feed.*
unfoldable pub use Sockets.*
