-- ===== src/Web.antt =====
-- modules/web: the HTTP parser, the WebSocket codec, request paths and queries, routing and middleware.
pub mod HttpParser
pub mod Middleware
pub mod Path
pub mod Query
pub mod Router
pub mod WebSocket
