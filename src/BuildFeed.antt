-- ===== src/BuildFeed.antt =====
-- custom_components/panel_assistant/build_feed.py: the signed feed of internal builds.
pub mod Build
pub mod Feed
pub mod Fetch
pub mod Download
pub mod Downloaded
pub mod Codes
pub mod Proofs
pub mod Tagged
