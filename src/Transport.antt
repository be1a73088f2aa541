-- ===== src/Transport.antt =====
-- internal/transport: the sender's end of a connection, and the receiver's.
pub mod Client
pub mod Pipeline
