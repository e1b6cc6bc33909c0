-- ===== src/InstallJobs/Manager.antt =====
-- `InstallJobManager` of custom_components/panel_assistant/install_jobs.py.
pub mod Claims
pub mod Load
pub mod Save
pub mod Prune
pub mod Current
pub mod Operations
pub mod Calls
