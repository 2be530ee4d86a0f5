-- ===== src/Runs.antt =====
-- Runs of the code on concrete inputs.
pub mod Sample
pub mod Codecs
pub mod Blocks
pub mod Connection
pub mod Streams
pub mod Pools
pub mod Parsers
pub mod Columns
pub mod Dictionaries
pub mod Decimals
pub mod Queries
pub mod Commands
