-- ===== src/Proto.antt =====
-- src/proto: the codes, the choice of the method, and the choice of the version.
pub mod Status
pub mod Versions
pub mod Selector
