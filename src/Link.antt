-- ===== src/Link.antt =====
-- The transports of src/transport.rs: the framing of byte streams, the readers that fill an inbox, and
-- the simulated network between the roles.
pub mod Errors
pub mod Frames
pub mod Inbox
pub mod Reader
pub mod Datagrams
pub mod Live
pub mod Network
