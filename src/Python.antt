-- ===== src/Python.antt =====
-- The Python runtime as far as the package sees it.
pub mod Object
pub mod Effect
pub mod Tasks
pub mod Dict
pub mod Text
pub mod Sorting
pub mod Fallible
