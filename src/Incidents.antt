-- ===== src/Incidents.antt =====
-- portal/incidents.py: registered product failures, folded into deduplicated incidents.
pub mod Types
pub mod Observe
mod Walk
pub mod Sound
pub mod Eligible
pub mod Deliveries
mod Tests
