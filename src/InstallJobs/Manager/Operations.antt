-- ===== src/InstallJobs/Manager/Operations.antt =====
-- The public methods of `InstallJobManager`: custom_components/panel_assistant/install_jobs.py.
-- Each holds the process-wide lock, so it runs as one step. `now` is what `self._now()` returns in
-- the call, and `draws` what `token_hex(16)` returns, in order.
pub mod Create
pub mod Find
pub mod Cancel
pub mod Claim
pub mod Transition
pub mod Barrier
