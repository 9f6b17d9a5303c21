-- ===== src/Match.antt =====
-- hsl_core/hsl_core/match.py: the stage lifecycle, semantic zones and event adjudication.
pub mod Enums
pub mod Types
pub mod Manager
pub mod Requests
pub mod Lifecycle
pub mod Events
pub mod Adjudication
pub mod Resolution
pub mod Reset
pub mod Snapshot
pub mod Checks
pub mod Invariant
pub mod Calls
