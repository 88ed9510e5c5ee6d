-- ===== src/Artifact.antt =====
-- src/compiled_artifact.h and src/compiled_artifact.cc: the byte format of a compiled artifact.
-- `Format` has the header, `Write` the serialiser, `Read` the reader and `Host` the host check.
-- `LittleEndian` is about the words, `Encoding` about what a serialiser appends, `Cursor` and
-- `Roundtrip` about the reader on it, `Inverse`, `Loops` and `Canonical` about what the reader
-- accepts, and `Wrap` about the sum in its bounds check.
pub mod Format
pub mod Write
pub mod Read
pub mod LittleEndian
pub mod Encoding
pub mod Cursor
pub mod Roundtrip
pub mod Inverse
pub mod Loops
pub mod Canonical
pub mod Host
pub mod Wrap
mod Examples
