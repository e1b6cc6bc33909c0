-- ===== src/InstallJobs.antt =====
-- custom_components/panel_assistant/install_jobs.py: durable receipts of first installations.
pub mod Phase
pub mod Receipt
pub mod Scalars
pub mod Parse
pub mod Invariants
pub mod Document
pub mod Disk
pub mod World
pub mod Manager
pub mod Proofs
