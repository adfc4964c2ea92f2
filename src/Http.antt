-- ===== src/Http.antt =====
-- `src/http/`: the HTTP client, and how it connects.
pub mod Family
pub mod Tls
pub mod Message
pub mod Dial
pub mod Origin
pub mod Body
pub mod Request
pub mod Client
