-- ===== src/Catalog.antt =====
-- The choices of what to install: custom_components/panel_assistant/release_catalog.py.
pub mod Choices
pub mod Listing
pub mod Offered
