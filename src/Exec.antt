-- ===== src/Exec.antt =====
-- internal/exec: the evaluation of a query, as far as it is modelled: truth values and joins.
pub mod Truth
pub mod Join
mod Tests
