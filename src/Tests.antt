-- ===== src/Tests.antt =====
-- Runs of the models on concrete inputs.
mod Setting
mod Receipts
mod Claims
mod Rules
mod Final
mod Online
mod Releases
mod Plans
mod Feeds
mod Panels
mod Probes
mod Checklists
mod Choices
mod Pruned
