-- ===== src/InstallJobs/Proofs/Rivals.antt =====
-- The receipts that stand in the way of a new job, and the draw of its identifier:
-- custom_components/panel_assistant/install_jobs.py.
use ha_paneld_home_assistant.Prelude.{
  ◌≡◌, subst, true, false, none, some, Text, inl, inr, [], List, ◌∷◌, Bool-cases, All, Option-cases,
}
use mathlib.Core.List.{Mem, mem-cons_self, mem-cons_of_mem}
use ha_paneld_home_assistant.InstallJobs.Receipt.{InstallTarget, InstallJobReceipt, is_terminal}
use ha_paneld_home_assistant.InstallJobs.Document.{Jobs, job}
use ha_paneld_home_assistant.InstallJobs.Manager.Operations.Create.{
  Plan, overlaps, same_plan, join, free, joining, draw,
}
use ha_paneld_home_assistant.InstallJobs.Proofs.Coherence.{some_eq}

-- A receipt that is live and shares an address, a pin or a serial with the target.
abbrev pub IsRival : InstallTarget → InstallJobReceipt → Type 0
IsRival t r = (is_terminal r ≡ false) × (overlaps r.target t ≡ true)

-- Nothing is joined and nothing conflicts only if no receipt is a rival.
pub joining-free :
    (plan : Plan) (rs : List InstallJobReceipt)
    → joining plan rs ≡ free
    → All (λ r. ¬ IsRival plan.target r) rs
unfolding joining
joining-free plan [] h = tt
joining-free plan (r ∷ rs) h = elim (Bool-cases (is_terminal r)) [
  | inl over ↦ (λ q. cc (q.0, over), joining-free plan rs (rw over at h))
  | inr live ↦ elim (Bool-cases (overlaps r.target plan.target)) [
    | inr apart ↦ (λ q. cc (q.1, apart), joining-free plan rs (rw (live, apart) at h))
    | inl shared ↦ elim (Bool-cases (same_plan plan r)) [
      | inl same ↦ cc (rw (live, shared, same) at h)
      | inr other ↦ cc (rw (live, shared, other) at h)
    ]
  ]
]

join-injective : {r s : InstallJobReceipt} → join r ≡ join s → r ≡ s
join-injective e = cc

-- What is joined is a live rival with the very same plan.
pub joining-join :
    (plan : Plan) (rs : List InstallJobReceipt) (r : InstallJobReceipt)
    → joining plan rs ≡ join r
    → Mem r rs × (IsRival plan.target r × (same_plan plan r ≡ true))
unfolding joining
joining-join plan [] r h = cc
joining-join plan (s ∷ rs) r h = elim (Bool-cases (is_terminal s)) [
  | inl over ↦ later (joining-join plan rs r (rw over at h))
  | inr live ↦ elim (Bool-cases (overlaps s.target plan.target)) [
    | inr apart ↦ later (joining-join plan rs r (rw (live, apart) at h))
    | inl shared ↦ elim (Bool-cases (same_plan plan s)) [
      | inl same ↦
          subst (λ x. Mem x (s ∷ rs) × (IsRival plan.target x × (same_plan plan x ≡ true)))
            (join-injective (rw (live, shared, same) at h)) (mem-cons_self, ((live, shared), same))
      | inr other ↦ cc (rw (live, shared, other) at h)
    ]
  ]
]
  where
    later : {P : Type 0} → Mem r rs × P → Mem r (s ∷ rs) × P
    later (m, q) = (mem-cons_of_mem s m, q)

pub draw-fresh :
    (ds : List Text) (jobs : Jobs) (d : Text) → draw ds jobs ≡ some d → job d jobs ≡ none
unfolding draw
draw-fresh [] jobs d h = cc
draw-fresh (e ∷ ds) jobs d h = elim (Option-cases (job e jobs)) [
  | inl new ↦ subst (λ x. job x jobs ≡ none) (some_eq (rw new at h)) new
  | inr (r, used) ↦ draw-fresh ds jobs d (rw used at h)
]
