-- ===== src/Client.antt =====
-- custom_components/panel_assistant/client.py.
pub mod Address
pub mod Versions
pub mod Health
pub mod Responses
pub mod Newer
pub mod Appended
