-- ===== src/Batch.antt =====
-- internal/extensions/batch: DECLARE and SET of batch variables.
pub mod Rounds
pub mod Scan
pub mod Substitute
pub mod Declared
pub mod Quotes
pub mod Passes
pub mod Boundary
pub mod Cut
pub mod Text
pub mod Keyword
pub mod Resolve
mod Tests
