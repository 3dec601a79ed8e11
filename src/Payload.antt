-- ===== src/Payload.antt =====
-- src/payload.c: typed values, the decoder of a payload, and the writer that builds one.
pub mod Value
pub mod Decode
pub mod Writer
pub mod RoundTrip
