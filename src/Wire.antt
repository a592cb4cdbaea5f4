-- ===== src/Wire.antt =====
-- internal/wire: the TDS protocol, one module to a file of the package.
pub mod Text
pub mod Framing
pub mod Tokens
pub mod Login7
pub mod Prelogin
pub mod Rpc
pub mod TypeInfo
pub mod Result
