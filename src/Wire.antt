-- ===== src/Wire.antt =====
-- src/binary/ and the scalar marshalling of src/types/: the byte level of the protocol.
pub mod Outcome
pub mod Scalar
pub mod Encoder
pub mod ReadEx
pub mod Cursor
pub mod Incremental
pub mod Reads
pub mod Uvarint
pub mod RoundTrip
pub mod Total
