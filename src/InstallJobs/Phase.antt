-- ===== src/InstallJobs/Phase.antt =====
-- The phases of an installation and its result codes, with the tables over them:
-- custom_components/panel_assistant/install_jobs.py, `InstallPhase` to `_NEXT_PHASE`.
use ha_paneld_home_assistant.Prelude.{
  ℕ, Bool, true, false, Option, none, some, List, [], ◌∷◌, ◌==◌, if◌then◌else◌, any, Text, codes,
  text_eq,
}

pub data Phase : Type 0 where
  approved authorizing preflight downloading artifact_ready revalidating staging : Phase
  installing installed launching health_check healthy_unclaimed : Phase
  consumed cancelled failed recovery_required : Phase

pub data ResultCode : Type 0 where
  entry_created cancelled_by_user cancelled_after_staging_cleanup : ResultCode
  authorization_failed preflight_rejected artifact_rejected transport_failed : ResultCode
  install_failed launch_failed health_check_failed : ResultCode
  ambiguous_mutation verification_required : ResultCode

-- The position of the member in its `StrEnum`.
abbrev pub phase_index : Phase → ℕ
phase_index approved = 0
phase_index authorizing = 1
phase_index preflight = 2
phase_index downloading = 3
phase_index artifact_ready = 4
phase_index revalidating = 5
phase_index staging = 6
phase_index installing = 7
phase_index installed = 8
phase_index launching = 9
phase_index health_check = 10
phase_index healthy_unclaimed = 11
phase_index consumed = 12
phase_index cancelled = 13
phase_index failed = 14
phase_index recovery_required = 15

abbrev pub code_index : ResultCode → ℕ
code_index entry_created = 0
code_index cancelled_by_user = 1
code_index cancelled_after_staging_cleanup = 2
code_index authorization_failed = 3
code_index preflight_rejected = 4
code_index artifact_rejected = 5
code_index transport_failed = 6
code_index install_failed = 7
code_index launch_failed = 8
code_index health_check_failed = 9
code_index ambiguous_mutation = 10
code_index verification_required = 11

abbrev pub phase_eq : Phase → Phase → Bool
phase_eq a b = phase_index a == phase_index b

-- `phase in {…}`, the set as the list of its members.
unfoldable pub in_phases : Phase → List Phase → Bool
unfolding any
in_phases x set = any (phase_eq x) set

abbrev pub code_eq : ResultCode → ResultCode → Bool
code_eq a b = code_index a == code_index b

-- `result_code in {…}`: `None` is in no set of codes.
unfoldable pub in_codes : Option ResultCode → List ResultCode → Bool
unfolding any
in_codes none set = false
in_codes (some c) set = any (code_eq c) set

abbrev pub terminal_phases : List Phase
terminal_phases = consumed ∷ cancelled ∷ failed ∷ recovery_required ∷ []

abbrev pub mutation_barriers : List Phase
mutation_barriers = staging ∷ installing ∷ launching ∷ []

-- `_CLEANUP_BARRIER_CANCEL_POLARITY.get(phase)`
unfoldable pub cleanup_barrier_cancel_polarity : Phase → Option Bool
cleanup_barrier_cancel_polarity staging = some true
cleanup_barrier_cancel_polarity installing = some false
cleanup_barrier_cancel_polarity launching = some false
cleanup_barrier_cancel_polarity _ = none

abbrev pub artifact_required_phases : List Phase
artifact_required_phases =
    artifact_ready ∷ revalidating ∷ staging ∷ installing ∷ installed ∷ launching ∷ health_check
    ∷ healthy_unclaimed ∷ consumed ∷ []

abbrev pub preflight_root_mode_required_phases : List Phase
preflight_root_mode_required_phases = downloading ∷ artifact_required_phases

abbrev pub preflight_root_mode_forbidden_phases : List Phase
preflight_root_mode_forbidden_phases = approved ∷ authorizing ∷ preflight ∷ []

abbrev pub cancellable_phases : List Phase
cancellable_phases =
    approved ∷ authorizing ∷ preflight ∷ downloading ∷ artifact_ready ∷ revalidating ∷ staging ∷ []

abbrev pub failure_codes : List ResultCode
failure_codes =
    authorization_failed ∷ preflight_rejected ∷ artifact_rejected ∷ transport_failed
    ∷ install_failed ∷ launch_failed ∷ health_check_failed ∷ []

abbrev pub recovery_codes : List ResultCode
recovery_codes = ambiguous_mutation ∷ verification_required ∷ []

-- `_FAILURE_CODES_BY_PHASE.get(phase, frozenset())`
unfoldable pub failure_codes_by_phase : Phase → List ResultCode
failure_codes_by_phase authorizing = authorization_failed ∷ transport_failed ∷ []
failure_codes_by_phase preflight = preflight_rejected ∷ transport_failed ∷ []
failure_codes_by_phase downloading = artifact_rejected ∷ transport_failed ∷ []
failure_codes_by_phase artifact_ready = artifact_rejected ∷ transport_failed ∷ []
failure_codes_by_phase revalidating = artifact_rejected ∷ preflight_rejected ∷ transport_failed ∷ []
failure_codes_by_phase staging = artifact_rejected ∷ transport_failed ∷ []
failure_codes_by_phase installing = install_failed ∷ []
failure_codes_by_phase installed = install_failed ∷ []
failure_codes_by_phase launching = launch_failed ∷ transport_failed ∷ []
failure_codes_by_phase health_check = health_check_failed ∷ transport_failed ∷ []
failure_codes_by_phase _ = []

abbrev pub recovery_source_phases : List Phase
recovery_source_phases =
    staging ∷ installing ∷ installed ∷ launching ∷ health_check ∷ healthy_unclaimed ∷ []

abbrev pub restart_ambiguous_phases : List Phase
restart_ambiguous_phases = staging ∷ installing ∷ launching ∷ []

-- `_NEXT_PHASE.get(phase, frozenset())`
unfoldable pub next_phases : Phase → List Phase
next_phases approved = authorizing ∷ cancelled ∷ failed ∷ []
next_phases authorizing = preflight ∷ cancelled ∷ failed ∷ []
next_phases preflight = downloading ∷ cancelled ∷ failed ∷ []
next_phases downloading = artifact_ready ∷ cancelled ∷ failed ∷ []
next_phases artifact_ready = revalidating ∷ cancelled ∷ failed ∷ []
next_phases revalidating = staging ∷ cancelled ∷ failed ∷ []
next_phases staging = installing ∷ cancelled ∷ failed ∷ recovery_required ∷ []
next_phases installing = installed ∷ failed ∷ recovery_required ∷ []
next_phases installed = launching ∷ failed ∷ recovery_required ∷ []
next_phases launching = health_check ∷ failed ∷ recovery_required ∷ []
next_phases health_check = healthy_unclaimed ∷ failed ∷ recovery_required ∷ []
next_phases healthy_unclaimed = consumed ∷ recovery_required ∷ []
next_phases _ = []

-- `phase.value`
unfoldable pub phase_value : Phase → Text
phase_value approved = codes "approved"
phase_value authorizing = codes "authorizing"
phase_value preflight = codes "preflight"
phase_value downloading = codes "downloading"
phase_value artifact_ready = codes "artifact_ready"
phase_value revalidating = codes "revalidating"
phase_value staging = codes "staging"
phase_value installing = codes "installing"
phase_value installed = codes "installed"
phase_value launching = codes "launching"
phase_value health_check = codes "health_check"
phase_value healthy_unclaimed = codes "healthy_unclaimed"
phase_value consumed = codes "consumed"
phase_value cancelled = codes "cancelled"
phase_value failed = codes "failed"
phase_value recovery_required = codes "recovery_required"

abbrev pub all_phases : List Phase
all_phases =
    approved ∷ authorizing ∷ preflight ∷ downloading ∷ artifact_ready ∷ revalidating ∷ staging
    ∷ installing ∷ installed ∷ launching ∷ health_check ∷ healthy_unclaimed ∷ terminal_phases

phase_named : Text → List Phase → Option Phase
unfolding text_eq phase_value
phase_named s [] = none
phase_named s (x ∷ xs) = if text_eq s (phase_value x) then some x else phase_named s xs

-- `InstallPhase(value)`, `none` where it raises `ValueError`.
unfoldable pub phase_of : Text → Option Phase
unfolding phase_named
phase_of s = phase_named s all_phases

-- `result_code.value`
unfoldable pub code_value : ResultCode → Text
code_value entry_created = codes "entry_created"
code_value cancelled_by_user = codes "cancelled_by_user"
code_value cancelled_after_staging_cleanup = codes "cancelled_after_staging_cleanup"
code_value authorization_failed = codes "authorization_failed"
code_value preflight_rejected = codes "preflight_rejected"
code_value artifact_rejected = codes "artifact_rejected"
code_value transport_failed = codes "transport_failed"
code_value install_failed = codes "install_failed"
code_value launch_failed = codes "launch_failed"
code_value health_check_failed = codes "health_check_failed"
code_value ambiguous_mutation = codes "ambiguous_mutation"
code_value verification_required = codes "verification_required"

abbrev pub all_codes : List ResultCode
all_codes =
    entry_created ∷ cancelled_by_user ∷ cancelled_after_staging_cleanup ∷ authorization_failed
    ∷ preflight_rejected ∷ artifact_rejected ∷ transport_failed ∷ install_failed ∷ launch_failed
    ∷ health_check_failed ∷ recovery_codes

code_named : Text → List ResultCode → Option ResultCode
unfolding text_eq code_value
code_named s [] = none
code_named s (x ∷ xs) = if text_eq s (code_value x) then some x else code_named s xs

-- `InstallResultCode(value)`
unfoldable pub code_of : Text → Option ResultCode
unfolding code_named
code_of s = code_named s all_codes
