-- ===== src/InstallJobs/Document/Dict.antt =====
-- The dictionary of jobs of
-- custom_components/panel_assistant/install_jobs.py.
use ha_paneld_home_assistant.Prelude.{
  Bool, true, false, ◌&&◌, Option, none, some, List, [], ◌∷◌, map, ◌==◌, if◌then◌else◌, length,
  Text, text_eq,
}
use ha_paneld_home_assistant.InstallJobs.Receipt.{InstallJobReceipt, receipt_eq}

-- `dict[str, InstallJobReceipt]`, in its order of insertion.
abbrev pub Jobs : Type 0
Jobs = List (Text × InstallJobReceipt)

-- `jobs.get(job_id)`
unfoldable pub job : Text → Jobs → Option InstallJobReceipt
unfolding text_eq
job job_id [] = none
job job_id ((k, r) ∷ jobs) = if text_eq k job_id then some r else job job_id jobs

-- `jobs[job_id] = receipt`: in its place, or at the end.
unfoldable pub put : Text → InstallJobReceipt → Jobs → Jobs
unfolding text_eq
put job_id r [] = (job_id, r) ∷ []
put job_id r ((k, s) ∷ jobs) =
    if text_eq k job_id then (k, r) ∷ jobs else (k, s) ∷ put job_id r jobs

-- `jobs.values()`
abbrev pub values : Jobs → List InstallJobReceipt
values = map (λ e. e.1)

unfoldable pub same_job : InstallJobReceipt → Option InstallJobReceipt → Bool
unfolding receipt_eq
same_job r none = false
same_job r (some s) = receipt_eq r s

unfoldable pub jobs_within : Jobs → Jobs → Bool
unfolding same_job job
jobs_within [] other = true
jobs_within ((k, r) ∷ jobs) other = same_job r (job k other) && jobs_within jobs other

-- `==` of two dictionaries.
unfoldable pub jobs_eq : Jobs → Jobs → Bool
unfolding jobs_within
jobs_eq a b = (length a == length b) && jobs_within a b
