-- ===== src/Generator.antt =====
-- internal/generator: the names that a generated project may have.
pub mod Name
pub mod Examples
