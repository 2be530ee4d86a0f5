-- ===== src/Wire/Uvarint.antt =====
-- The codec of variable-length integers: what `put_uvarint` writes and what `read_uvarint` accepts.
pub mod Encode
pub mod Decode
