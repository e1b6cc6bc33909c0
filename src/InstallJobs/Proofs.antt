-- ===== src/InstallJobs/Proofs.antt =====
-- Theorems about the receipts of custom_components/panel_assistant/install_jobs.py.
pub mod Graph
pub mod Printed
pub mod Parsed
pub mod Again
pub mod RoundTrip
pub mod Guards
pub mod Equality
pub mod Lookup
pub mod Post
pub mod Coherence
pub mod Saving
pub mod Stored
pub mod Transitions
pub mod Claims
pub mod Claiming
pub mod Cancelling
pub mod Loading
pub mod Barriers
pub mod Rivals
pub mod Creating
pub mod Refusals
pub mod Finality
pub mod Calls
pub mod Ranks
pub mod Newest
pub mod Entries
pub mod Documents
pub mod Pruning
pub mod Kept
pub mod Retention
pub mod Durable
