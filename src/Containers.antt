-- ===== src/Containers.antt =====
-- The standard containers that the program keys by strings.
pub mod Table
pub mod NameSet
