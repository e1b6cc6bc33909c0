-- ===== src/InstallJobs/Proofs/Guards.antt =====
-- The fields that depend on the phase, through every method that replaces a receipt:
-- custom_components/panel_assistant/install_jobs.py.
use ha_paneld_home_assistant.Prelude.{◌≡◌, ◌⊎◌, true, false, none, Text, arith}
use ha_paneld_home_assistant.InstallJobs.Phase.{
  Phase, phase_eq, healthy_unclaimed, in_phases, in_codes, cancellable_phases,
}
use ha_paneld_home_assistant.InstallJobs.Receipt.{InstallJobReceipt, is_terminal}
use ha_paneld_home_assistant.InstallJobs.Invariants.{
  is_root_mode, health_time_fits, phase_fields_fit,
}
use ha_paneld_home_assistant.InstallJobs.Manager.Operations.Cancel.{cancel_requested_receipt}
use ha_paneld_home_assistant.InstallJobs.Manager.Operations.Claim.{
  claimed_receipt, exhausted_receipt,
}
use ha_paneld_home_assistant.InstallJobs.Manager.Operations.Transition.{
  Facts, advanced, edge_allowed, facts_allowed, result_allowed,
}

-- A cancellation request keeps a receipt's fields fit for its phase.
cancel_requested-fits :
    (r : InstallJobReceipt) (now : Text)
    → in_phases r.phase cancellable_phases ≡ true
    → phase_fields_fit r ≡ true
    → phase_fields_fit (cancel_requested_receipt r now) ≡ true
unfolding cancel_requested_receipt phase_fields_fit in_phases in_codes
cancel_requested-fits r now c m = ground arith

claimed_receipt-fits :
    (r : InstallJobReceipt) (now : Text)
    → is_terminal r ≡ false
    → phase_eq r.phase healthy_unclaimed ≡ false
    → phase_fields_fit r ≡ true
    → phase_fields_fit (claimed_receipt r now) ≡ true
unfolding claimed_receipt phase_fields_fit in_phases in_codes is_terminal
claimed_receipt-fits r now t u m = ground arith

exhausted_receipt-fits :
    (r : InstallJobReceipt) (now : Text)
    → is_terminal r ≡ false
    → phase_eq r.phase healthy_unclaimed ≡ false
    → phase_fields_fit r ≡ true
    → phase_fields_fit (exhausted_receipt r now) ≡ true
unfolding exhausted_receipt phase_fields_fit in_phases in_codes is_terminal
exhausted_receipt-fits r now t u m = ground arith

-- The receipts that a claim and a cancellation request write keep the fields fit for their phase: of
-- a live receipt that is not waiting to be consumed, the claimed and the exhausted form; and of a
-- receipt in a phase that can be cancelled, the form with the request.
pub claims-fit :
    (r : InstallJobReceipt) (now : Text)
    → is_terminal r ≡ false
    → phase_eq r.phase healthy_unclaimed ≡ false
    → phase_fields_fit r ≡ true
    → (phase_fields_fit (claimed_receipt r now) ≡ true)
      × (phase_fields_fit (exhausted_receipt r now) ≡ true)
      × (in_phases r.phase cancellable_phases ≡ true
          → phase_fields_fit (cancel_requested_receipt r now) ≡ true)
claims-fit r now t u m = (
  claimed_receipt-fits r now t u m,
  exhausted_receipt-fits r now t u m,
  λ c. cancel_requested-fits r now c m,
)

-- The guards of a transition are enough for the receipt that it writes: if the fields of a receipt
-- fit its phase, the edge, the facts and the result code are allowed, a root mode that is given is a
-- known one and the new receipt's health check lies between its creation and its update, then the
-- fields of the new receipt fit the new phase.
pub advanced-fits :
    (r : InstallJobReceipt) (phase : Phase) (f : Facts) (now : Text)
    → phase_fields_fit r ≡ true
    → edge_allowed r phase ≡ true
    → facts_allowed r phase f ≡ true
    → result_allowed r phase f ≡ true
    → (is_root_mode f.preflight_root_mode ≡ true) ⊎ (f.preflight_root_mode ≡ none)
    → health_time_fits (advanced r phase f now) ≡ true
    → phase_fields_fit (advanced r phase f now) ≡ true
unfolding advanced phase_fields_fit in_phases in_codes edge_allowed facts_allowed result_allowed
advanced-fits r phase f now m e a s o t = ground arith
