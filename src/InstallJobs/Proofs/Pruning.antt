-- ===== src/InstallJobs/Proofs/Pruning.antt =====
-- `_prune`: what it may remove, and what it never removes.
use ha_paneld_home_assistant.Prelude.{
  ◌≡◌, refl, ap, subst, ◌∙◌, false, none, some, List, [], ◌∷◌, Text, text_eq, text_eq_iff,
  text_eq_refl, mem_text, All, Bool-cases, inl, inr, if◌then◌else◌,
}
use ha_paneld_home_assistant.Platform.{Platform}
use ha_paneld_home_assistant.InstallJobs.Receipt.{InstallJobReceipt, is_terminal}
use ha_paneld_home_assistant.InstallJobs.Document.{Jobs, job, values}
use ha_paneld_home_assistant.InstallJobs.Manager.Prune.{
  prune, pop, pop_unretained, terminal_only, newest_first,
}
use ha_paneld_home_assistant.InstallJobs.Proofs.Coherence.{some_eq}
use ha_paneld_home_assistant.InstallJobs.Proofs.Lookup.{job-pop}
use ha_paneld_home_assistant.InstallJobs.Proofs.Stored.{prune-pops}
use ha_paneld_home_assistant.InstallJobs.Proofs.Entries.{Pairwise}
use ha_paneld_home_assistant.InstallJobs.Proofs.Ranks.{sort_by-All}

-- Two entries under different keys.
abbrev pub HaveOtherKeys : Text × InstallJobReceipt → Text × InstallJobReceipt → Type 0
HaveOtherKeys e f = text_eq e.0 f.0 ≡ false

-- No receipt of the list has the identifier.
abbrev pub AreOther : Text → List InstallJobReceipt → Type 0
AreOther k = All (λ s. text_eq s.job_id k ≡ false)

job-pop_unretained :
    (rs : List InstallJobReceipt) (kept : List Text) (k : Text) (jobs : Jobs)
    → AreOther k rs
    → job k (pop_unretained rs kept jobs) ≡ job k jobs
unfolding pop_unretained
job-pop_unretained [] kept k jobs h = refl
job-pop_unretained (s ∷ rs) kept k jobs h = elim (Bool-cases (mem_text s.job_id kept)) [
  | inl e ↦ rw e (job-pop_unretained rs kept k jobs h.1)
  | inr e ↦ rw e (
      job-pop_unretained rs kept k (pop s.job_id jobs) h.1
      ∙ (job-pop s.job_id k jobs ∙ ap (λ b. if b then none else job k jobs) h.0))
]

-- Entries under other keys, each under its own identifier.
pub terminal_only-AreOther :
    (k : Text) (jobs : Jobs)
    → All (λ e. e.0 ≡ e.1.job_id) jobs
    → All (λ e. text_eq e.0 k ≡ false) jobs
    → AreOther k (terminal_only (values jobs))
unfolding terminal_only
terminal_only-AreOther k [] keyed others = tt
terminal_only-AreOther k ((i, q) ∷ jobs) keyed others =
    let rest = terminal_only-AreOther k jobs keyed.1 others.1 in
    elim (Bool-cases (is_terminal q)) [
      | inr live ↦ rw live rest
      | inl over ↦ rw over (subst (λ x. text_eq x k ≡ false) keyed.0 others.0, rest)
    ]

apart_key : (k i j : Text) → i ≡ k → text_eq i j ≡ false → text_eq j k ≡ false
apart_key k i j e h = elim (Bool-cases (text_eq j k)) [
  | inr other ↦ other
  | inl same ↦ cc (h, e, (text_eq_iff j k).0 same, text_eq_refl j)
]

-- No entry is under the key of one that all others differ from.
pub others :
    (k i : Text) (q : InstallJobReceipt) (jobs : Jobs)
    → i ≡ k
    → All (HaveOtherKeys (i, q)) jobs
    → All (λ e. text_eq e.0 k ≡ false) jobs
others k i q [] e h = tt
others k i q ((j, s) ∷ jobs) e h = (apart_key k i j e h.0, others k i q jobs e h.1)

-- In a document, a live job's identifier is not that of a terminal one.
live-AreOther :
    (k : Text) (jobs : Jobs) {r : InstallJobReceipt}
    → All (λ e. e.0 ≡ e.1.job_id) jobs
    → Pairwise HaveOtherKeys jobs
    → job k jobs ≡ some r
    → is_terminal r ≡ false
    → AreOther k (terminal_only (values jobs))
unfolding job terminal_only
live-AreOther k [] keyed apart h live = tt
live-AreOther k ((i, q) ∷ jobs) {r = r} keyed apart h live = elim (Bool-cases (text_eq i k)) [
  | inl same ↦
      let q_live = ap is_terminal (some_eq (rw same at h)) ∙ live in
      rw q_live (
        terminal_only-AreOther k jobs keyed.1
          (others k i q jobs ((text_eq_iff i k).0 same) apart.0))
  | inr other ↦
      let rest = live-AreOther k jobs keyed.1 apart.1 (rw other at h) live in
      elim (Bool-cases (is_terminal q)) [
        | inr q_live ↦ rw q_live rest
        | inl over ↦ rw over (subst (λ x. text_eq x k ≡ false) keyed.0 other, rest)
      ]
]

newest_first-AreOther :
    (k : Text) (rs : List InstallJobReceipt) → AreOther k rs → AreOther k (newest_first rs)
unfolding newest_first
newest_first-AreOther k rs h = sort_by-All _ _ rs h

module _ (p : Platform) where
  -- Pruning keeps every live job, as it is.
  pub prune-keeps_live :
      (jobs pruned : Jobs) (now k : Text) (r : InstallJobReceipt)
      → All (λ e. e.0 ≡ e.1.job_id) jobs
      → Pairwise HaveOtherKeys jobs
      → prune p jobs now ≡ some pruned
      → is_terminal r ≡ false
      → job k jobs ≡ some r
      → job k pruned ≡ some r
  prune-keeps_live jobs pruned now k r keyed apart h live e =
      let (kept, same) = prune-pops p jobs now h in
      ap (job k) same
      ∙ (job-pop_unretained _ kept k jobs
            (newest_first-AreOther k _ (live-AreOther k jobs keyed apart e live))
          ∙ e)
