-- ===== src/RuleSpec.antt =====
-- The rules of the assembled configurations: backend/internal/rulespec. A rule value is a list of
-- code points; where the code takes byte positions, of a bracket or a comma, the position among the
-- code points selects the same slices.
pub mod Canonical
pub mod Key
pub mod Capability
pub mod Scope
pub mod Tables
pub mod Legacy
pub mod Strings
pub mod Trim
pub mod Value
pub mod Rendered
pub mod ReadBack
pub mod Accepted
pub mod Types
pub mod Limits
pub mod Tests
