-- ===== src/InstallPlan/Proofs.antt =====
-- Proofs about custom_components/panel_assistant/install_plan.py.
pub mod Binding
pub mod Accepted
