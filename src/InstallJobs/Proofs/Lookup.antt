-- ===== src/InstallJobs/Proofs/Lookup.antt =====
-- The dictionary of jobs under `job`, `put`, `pop`, `==` and the pruning loop.
use ha_paneld_home_assistant.Prelude.{
  ℕ, ◌≡◌, ◌≢◌, refl, ◌∙◌, sym, ap, subst, true, Option, none, some, List, [], ◌∷◌, Text, text_eq,
  text_eq_iff, text_eq_refl, mem_text, arith, if◌then◌else◌, and-eq-true, Bool-cases, inl, inr,
}
use ha_paneld_home_assistant.InstallJobs.Receipt.{InstallJobReceipt}
use ha_paneld_home_assistant.InstallJobs.Document.{Jobs, job, put, jobs_eq, jobs_within, same_job}
use ha_paneld_home_assistant.InstallJobs.Manager.Prune.{pop, pop_unretained}
use ha_paneld_home_assistant.InstallJobs.Manager.Claims.{ClaimMap, claim_of, holds_claim}
use ha_paneld_home_assistant.InstallJobs.Proofs.Equality.{receipt_eq_sound}

pub job-put :
    (k j : Text) (r : InstallJobReceipt) (jobs : Jobs)
    → job j (put k r jobs) ≡ (if text_eq k j then some r else job j jobs)
unfolding job put
job-put k j r [] = refl
job-put k j r ((i, s) ∷ jobs) =
    ground (arith, text_eq_iff k j, text_eq_iff i k, text_eq_iff i j, job-put k j r jobs)

pub job-put_self : (k : Text) (r : InstallJobReceipt) (jobs : Jobs) → job k (put k r jobs) ≡ some r
job-put_self k r jobs = rw (job-put, text_eq_refl k)

pub job-pop :
    (k j : Text) (jobs : Jobs) → job j (pop k jobs) ≡ (if text_eq k j then none else job j jobs)
unfolding job pop
job-pop k j [] = ground arith
job-pop k j ((i, s) ∷ jobs) =
    ground (arith, text_eq_iff k j, text_eq_iff i k, text_eq_iff i j, job-pop k j jobs)

pub job_of_pop :
    (k j : Text) (jobs : Jobs) {r : InstallJobReceipt}
    → job j (pop k jobs) ≡ some r
    → job j jobs ≡ some r
job_of_pop k j jobs h = ground (arith, job-pop k j jobs)

-- Pruning changes no receipt: what is left was there.
pub job_of_pop_unretained :
    (rs : List InstallJobReceipt) (kept : List Text) (j : Text) (jobs : Jobs)
    {r : InstallJobReceipt}
    → job j (pop_unretained rs kept jobs) ≡ some r
    → job j jobs ≡ some r
unfolding pop_unretained
job_of_pop_unretained [] kept j jobs h = h
job_of_pop_unretained (s ∷ rs) kept j jobs h = elim (Bool-cases (mem_text s.job_id kept)) [
  | inl e ↦ job_of_pop_unretained rs kept j jobs (rw e at h)
  | inr e ↦
      job_of_pop s.job_id j jobs (job_of_pop_unretained rs kept j (pop s.job_id jobs) (rw e at h))
]

same_job_sound :
    (r : InstallJobReceipt) (o : Option InstallJobReceipt) → same_job r o ≡ true → o ≡ some r
unfolding same_job
same_job_sound r none h = cc
same_job_sound r (some s) h = ap some (sym (receipt_eq_sound r s h))

jobs_within-job :
    (a b : Jobs) (j : Text) {r : InstallJobReceipt}
    → jobs_within a b ≡ true
    → job j a ≡ some r
    → job j b ≡ some r
unfolding jobs_within job
jobs_within-job [] b j h e = cc
jobs_within-job ((k, s) ∷ a) b j {r = r} h e =
    let (here, rest) = and-eq-true _ _ h in
    elim (Bool-cases (text_eq k j)) [
      | inl same ↦
          subst (λ x. job x b ≡ some r) ((text_eq_iff k j).0 same)
            (same_job_sound s (job k b) here ∙ (rw same at e))
      | inr other ↦ jobs_within-job a b j rest (rw other at e)
    ]

-- A dictionary that equals another has its receipts.
pub jobs_eq-job :
    (a b : Jobs) (j : Text) {r : InstallJobReceipt}
    → jobs_eq a b ≡ true
    → job j a ≡ some r
    → job j b ≡ some r
unfolding jobs_eq
jobs_eq-job a b j h e = jobs_within-job a b j (and-eq-true _ _ h).1 e

pub holds_claim-claim_of :
    (k : Text) (g : ℕ) (claims : ClaimMap)
    → holds_claim k g claims ≡ true
    → claim_of k claims ≢ none
unfolding holds_claim
holds_claim-claim_of k g claims h e = cc (rw (e, holds_claim) at h)
