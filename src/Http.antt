-- ===== src/Http.antt =====
-- src/http.c and src/server.h: requests and connections.
pub mod Message
pub mod Parse
pub mod Connection
pub mod Threads
pub mod Spec
pub mod Headers
pub mod RequestLine
pub mod RoundTrip
