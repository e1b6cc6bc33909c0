-- ===== src/InstallJobs/Proofs/Claims.antt =====
-- The receipts that a claim writes, and the claims that it records:
-- custom_components/panel_assistant/install_jobs.py.
use ha_paneld_home_assistant.Prelude.{
  ℕ, ◌≡◌, refl, sym, ap, ◌∙◌, true, false, some, Text, [], ◌∷◌, arith, inl, inr, Bool-cases,
  if◌then◌else◌, text_eq, text_eq_iff,
}
use ha_paneld_home_assistant.Platform.{Platform}
use ha_paneld_home_assistant.InstallJobs.Phase.{phase_eq, healthy_unclaimed, in_phases}
use ha_paneld_home_assistant.InstallJobs.Receipt.{InstallJobReceipt, is_terminal}
use ha_paneld_home_assistant.InstallJobs.Document.{Jobs, job}
use ha_paneld_home_assistant.InstallJobs.World.{World}
use ha_paneld_home_assistant.InstallJobs.Manager.Claims.{ClaimMap, claim_of, put_claim, keeps_claim}
use ha_paneld_home_assistant.InstallJobs.Manager.Operations.Claim.{
  is_exhausted, exhausted_receipt, claimed_receipt, record_claim,
}
use ha_paneld_home_assistant.InstallJobs.Proofs.Post.{Post, returns, Post-if}
use ha_paneld_home_assistant.InstallJobs.Proofs.Coherence.{IsCoherent, some_eq}
use ha_paneld_home_assistant.InstallJobs.Proofs.Stored.{Stored}

claim_of-put_claim :
    (k j : Text) (g : ℕ) (claims : ClaimMap)
    → claim_of j (put_claim k g claims) ≡ (if text_eq k j then some g else claim_of j claims)
unfolding claim_of put_claim
claim_of-put_claim k j g [] = refl
claim_of-put_claim k j g ((i, n) ∷ claims) =
    ground
      (arith, text_eq_iff k j, text_eq_iff i k, text_eq_iff i j, claim_of-put_claim k j g claims)

-- A claimed receipt is not `healthy_unclaimed` unless it was.
pub claimed_not_healthy :
    (r : InstallJobReceipt) (now : Text)
    → phase_eq r.phase healthy_unclaimed ≡ false
    → phase_eq (claimed_receipt r now).phase healthy_unclaimed ≡ false
unfolding claimed_receipt in_phases
claimed_not_healthy r now h = ground arith

keeps_live_claim :
    (r : InstallJobReceipt)
    → is_terminal r ≡ false
    → phase_eq r.phase healthy_unclaimed ≡ false
    → keeps_claim (some r) r.executor_generation ≡ true
unfolding keeps_claim
keeps_live_claim r t h = ground (arith, t)

-- A claim is resumed, or newly recorded.
pub data ClaimOutcome (current r : InstallJobReceipt) : Type 0 where
  kept : r ≡ current → ClaimOutcome current r
  exhausted :
      (now : Text)
      → is_exhausted current ≡ true
      → r ≡ exhausted_receipt current now
      → ClaimOutcome current r
  renewed :
      (now : Text)
      → is_exhausted current ≡ false
      → r ≡ claimed_receipt current now
      → ClaimOutcome current r

module _ (p : Platform) where
  put_claim-IsCoherent :
      (k : Text) (r : InstallJobReceipt) (jobs : Jobs) (w : World)
      → IsCoherent p w
      → w.cache ≡ some jobs
      → job k jobs ≡ some r
      → is_terminal r ≡ false
      → phase_eq r.phase healthy_unclaimed ≡ false
      → IsCoherent p (record w { claims = put_claim k r.executor_generation w.claims })
  put_claim-IsCoherent k r jobs w c cached held live unhealthy = record {
    fresh = c.fresh;
    claimed = λ j g e. elim (Bool-cases (text_eq k j)) [
      | inl same ↦
          let e' : some r.executor_generation ≡ some g =
            rw (claim_of-put_claim k j r.executor_generation w.claims, same) at e in
          let j_held = ap (λ x. job x jobs) (sym ((text_eq_iff k j).0 same)) ∙ held in
          (
            jobs,
            cached,
            ap (λ o. keeps_claim o g) j_held
                ∙ (ap (keeps_claim (some r)) (sym (some_eq e'))
                    ∙ keeps_live_claim r live unhealthy),
          )
      | inr other ↦
          c.claimed j g (rw (claim_of-put_claim k j r.executor_generation w.claims, other) at e)
    ];
  }

  pub record_claim-Post :
      (k : Text) (updated r : InstallJobReceipt) (w : World)
      → phase_eq updated.phase healthy_unclaimed ≡ false
      → Stored p k updated r w
      → Post (λ r' w'. Stored p k updated r' w') (IsCoherent p) (record_claim k r w)
  unfolding record_claim
  record_claim-Post k updated r w h (c, same, jobs, cached, held, at_k) =
      Post-if (is_terminal r) _ _ (λ t. returns (c, same, jobs, cached, held, at_k))
        (λ live. returns (
          put_claim-IsCoherent k r jobs w c cached (at_k ∙ ap some (sym same)) live
              (ap (λ (x : InstallJobReceipt). phase_eq x.phase healthy_unclaimed) same ∙ h),
          same,
          jobs,
          cached,
          held,
          at_k,
        ))
