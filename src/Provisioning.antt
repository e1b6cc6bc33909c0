-- ===== src/Provisioning.antt =====
-- custom_components/panel_assistant/provisioning.py: what the read-only preflight reports. The modules
-- also have the commissioning guidance of provisioning_plan.py.
pub mod Lines
pub mod Packages
pub mod Facts
pub mod Probe
pub mod Candidates
pub mod Scanned
pub mod Transcripts
pub mod Guidance
pub mod Allowlisted
pub mod Presented
use ha_paneld_home_assistant.Prelude.{ℕ, Bool, true, false, Option, Text}

pub data InstallTargetState : Type 0 where
  adb_unreachable adb_unauthorized incompatible install_candidate installed : InstallTargetState
  retained_or_ambiguous : InstallTargetState

pub record InstallTargetProbe : Type 0 where
  pub state : InstallTargetState
  pub model : Option Text
  pub serial : Option Text
  pub primary_abi : Option Text
  pub android_sdk : Option ℕ

-- `state is InstallTargetState.INSTALL_CANDIDATE`
unfoldable pub is_candidate : InstallTargetState → Bool
is_candidate install_candidate = true
is_candidate _ = false
