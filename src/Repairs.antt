-- ===== src/Repairs.antt =====
-- portal/controller.py, class RepairStore: repairs, creation intents, the slot and the run.
pub mod Types
pub mod Store
pub mod Slot
pub mod Keys
pub mod Proposals
mod Tests
