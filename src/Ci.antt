-- ===== src/Ci.antt =====
-- tools/ci: which workspace members a change touches, and whether a storage contract evolves
-- additively.
pub mod Affected
pub mod Additive
pub mod Released
