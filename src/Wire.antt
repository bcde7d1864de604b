-- ===== src/Wire.antt =====
-- The live message format of src/transport.rs: encode_message, decode_message and the Cursor, on the
-- Message of src/primitives.rs and the Value of src/value.rs.
pub mod Values
pub mod Encode
pub mod Cursor
pub mod Codes
pub mod Atoms
pub mod Canonical
pub mod Entries
pub mod RoundTrip
pub mod Texts
pub mod Lookup
pub mod Bounded
pub mod Total
