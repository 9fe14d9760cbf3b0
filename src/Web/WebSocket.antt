-- ===== src/Web/WebSocket.antt =====
-- modules/web/src/websocket: frames on the wire, messages, and the life of a connection.
pub mod Frame
pub mod Queue
pub mod RoundTrip
pub mod Stream
pub mod Bounds
pub mod Message
pub mod Session
mod Tests
