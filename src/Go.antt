-- ===== src/Go.antt =====
-- What the program uses of Go's standard library.
pub mod Binary
pub mod Io
pub mod Utf
pub mod Fmt
pub mod Strings
pub mod Floats
