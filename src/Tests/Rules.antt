-- ===== src/Tests/Rules.antt =====
-- The rules on phases, tags and addresses at single inputs.
use ha_paneld_home_assistant.Prelude.{
  ℕ, ◌≤◌, ◌≡◌, ◌↔◌, ◌⊎◌, ◌-◌, refl, true, false, some, none, [], codes, inr,
}
use ha_paneld_home_assistant.Value.{Value, str}
use ha_paneld_home_assistant.Network.{is_rfc1918}
use ha_paneld_home_assistant.Network.Ranges.{is_rfc1918-ranges}
use ha_paneld_home_assistant.Release.Tags.{feed_build_code, is_install_release_tag}
use ha_paneld_home_assistant.Release.Kinds.{feed_build_code-disjoint}
use ha_paneld_home_assistant.InstallJobs.Phase.{
  in_phases, next_phases, phase_index, terminal_phases, approved, authorizing, preflight, consumed,
  cancellable_phases, healthy_unclaimed, entry_created,
}
use ha_paneld_home_assistant.InstallJobs.Receipt.{InstallJobReceipt, is_terminal}
use ha_paneld_home_assistant.InstallJobs.Invariants.{phase_fields_fit, health_time_fits}
use ha_paneld_home_assistant.InstallJobs.Manager.Operations.Claim.{
  claimed_receipt, exhausted_receipt,
}
use ha_paneld_home_assistant.InstallJobs.Manager.Operations.Cancel.{cancel_requested_receipt}
use ha_paneld_home_assistant.InstallJobs.Manager.Operations.Transition.{
  Facts, advanced, edge_allowed, facts_allowed, result_allowed,
}
use ha_paneld_home_assistant.InstallJobs.Proofs.Graph.{
  Walk, here, step, Edge, Walk-terminates, next_phases-progress,
}
use ha_paneld_home_assistant.InstallJobs.Proofs.Guards.{advanced-fits, claims-fit}
use ha_paneld_home_assistant.Tests.Setting.{fresh, early, late, job_id}

first-Edge : Edge approved authorizing
unfolding in_phases next_phases
first-Edge = refl

second-Edge : Edge authorizing preflight
unfolding in_phases next_phases
second-Edge = refl

abbrev two : ℕ
two = 2

Walk-terminates_example : (two ≤ 15) × (approved ≡ preflight → two ≡ 0)
Walk-terminates_example =
    Walk-terminates approved preflight two (step (step here first-Edge) second-Edge)

next_phases-progress_example :
    (in_phases preflight terminal_phases ≡ true → next_phases preflight ≡ [])
    × (in_phases preflight terminal_phases ≡ false
        → Walk preflight consumed (12 - phase_index preflight))
next_phases-progress_example = next_phases-progress preflight

abbrev build : Value
build = str (codes "build-42")

build_code : feed_build_code build ≡ some 42
unfolding feed_build_code
build_code = refl

feed_build_code-disjoint_example : is_install_release_tag build ≡ false
feed_build_code-disjoint_example = feed_build_code-disjoint build 42 build_code

is_rfc1918-ranges_example : (is_rfc1918 0x0A000002 ≡ true) ↔ (
    ((0x0A000000 ≤ 0x0A000002) × (0x0A000002 ≤ 0x0AFFFFFF))
    ⊎ (((0xAC100000 ≤ 0x0A000002) × (0x0A000002 ≤ 0xAC1FFFFF))
        ⊎ ((0xC0A80000 ≤ 0x0A000002) × (0x0A000002 ≤ 0xC0A8FFFF))))
is_rfc1918-ranges_example = is_rfc1918-ranges 0x0A000002

abbrev healthy : InstallJobReceipt
healthy = record fresh {
  revision = 12;
  executor_generation = 1;
  attempt = 1;
  phase = healthy_unclaimed;
  preflight_root_mode = some (codes "rootless");
  actual_apk_bytes = some 1000;
  health_checked_at = some early;
}

abbrev entry : Facts
entry = record {
  preflight_root_mode = none;
  actual_apk_bytes = none;
  health_checked_at = none;
  result_code = some entry_created;
  consumed_entry_id = some job_id;
}

healthy_fits : phase_fields_fit healthy ≡ true
unfolding phase_fields_fit
healthy_fits = refl

healthy_edge : edge_allowed healthy consumed ≡ true
unfolding edge_allowed
healthy_edge = refl

healthy_facts : facts_allowed healthy consumed entry ≡ true
unfolding facts_allowed
healthy_facts = refl

healthy_result : result_allowed healthy consumed entry ≡ true
unfolding result_allowed
healthy_result = refl

healthy_time : health_time_fits (advanced healthy consumed entry late) ≡ true
unfolding health_time_fits advanced
healthy_time = refl

advanced-fits_example : phase_fields_fit (advanced healthy consumed entry late) ≡ true
advanced-fits_example =
    advanced-fits healthy consumed entry late healthy_fits healthy_edge healthy_facts healthy_result
      (inr refl) healthy_time

fresh_live : is_terminal fresh ≡ false
unfolding is_terminal
fresh_live = refl

fresh_fits : phase_fields_fit fresh ≡ true
unfolding phase_fields_fit
fresh_fits = refl

claims-fit_example :
    (phase_fields_fit (claimed_receipt fresh late) ≡ true)
    × (phase_fields_fit (exhausted_receipt fresh late) ≡ true)
    × (in_phases fresh.phase cancellable_phases ≡ true
        → phase_fields_fit (cancel_requested_receipt fresh late) ≡ true)
claims-fit_example = claims-fit fresh late fresh_live refl fresh_fits
