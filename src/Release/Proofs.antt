-- ===== src/Release/Proofs.antt =====
-- Proofs about custom_components/panel_assistant/release.py.
pub mod Fetching
pub mod Requests
pub mod Authentic
