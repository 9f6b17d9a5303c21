-- ===== src/Tactics.antt =====
-- hsl_core/hsl_core/tactics: the choice of the next option by its priority and its utility.
pub mod Utility
pub mod Proposals
pub mod Guards
pub mod Selector
