-- ===== src/Verification.antt =====
-- portal/verification.py: the independent verdict on a candidate, and on what a human merged.
pub mod Scope
pub mod Report
pub mod Grading
pub mod Provenance
pub mod Candidate
pub mod Records
pub mod Outside
pub mod Pieces
pub mod Verifier
pub mod Tests
