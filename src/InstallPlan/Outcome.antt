-- ===== src/InstallPlan/Outcome.antt =====
-- The results of custom_components/panel_assistant/install_plan.py: a value, or `InstallPlanError`
-- with its code.
use ha_paneld_home_assistant.Prelude.Raising.{Raising}

pub data InstallPlanErrorCode : Type 0 where
  invalid_target probe_not_install_candidate incomplete_probe : InstallPlanErrorCode
  preview_only_release invalid_release incompatible_release : InstallPlanErrorCode
  invalid_credential invalid_plan : InstallPlanErrorCode

abbrev pub Bound : Type 0 → Type 0
Bound A = Raising InstallPlanErrorCode A
