-- ===== src/Release.antt =====
-- custom_components/panel_assistant/release.py.
pub mod Tags
pub mod Kinds
pub mod Artifact
pub mod Descriptor
pub mod Metadata
pub mod Session
pub mod Fetch
pub mod Resolve
pub mod Proofs
