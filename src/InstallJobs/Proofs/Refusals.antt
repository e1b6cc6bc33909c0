-- ===== src/InstallJobs/Proofs/Refusals.antt =====
-- The compare-and-swap: what a method does when its caller does not know the current revision.
use ha_paneld_home_assistant.Prelude.{ℕ, ◌≡◌, ◌≢◌, refl, sym, ap, subst, ◌∙◌, Option, some, Text}
use ha_paneld_home_assistant.Platform.{Platform}
use ha_paneld_home_assistant.InstallJobs.Phase.{Phase}
use ha_paneld_home_assistant.InstallJobs.Receipt.{InstallJobReceipt}
use ha_paneld_home_assistant.InstallJobs.Document.{Jobs, job}
use ha_paneld_home_assistant.InstallJobs.World.{World, Result, M, looking, ◌>>=◌, transition_error}
use ha_paneld_home_assistant.InstallJobs.Manager.Current.{checked_current}
use ha_paneld_home_assistant.InstallJobs.Manager.Load.{load_refreshed}
use ha_paneld_home_assistant.InstallJobs.Manager.Operations.Cancel.{request_cancel}
use ha_paneld_home_assistant.InstallJobs.Manager.Operations.Claim.{claim}
use ha_paneld_home_assistant.InstallJobs.Manager.Operations.Transition.{
  Facts, facts_valid, transition,
}
use ha_paneld_home_assistant.InstallJobs.Proofs.Post.{
  Post, Post-weaken, Post-bind, Post-require, Post-looking,
}
use ha_paneld_home_assistant.InstallJobs.Proofs.Coherence.{
  durable, Loaded, load_refreshed-Post, some_eq,
}
use ha_paneld_home_assistant.InstallJobs.Proofs.Stored.{checked_current-ok}

-- The method raises, and the disk is as it was.
abbrev pub Refused : {A : Type 0} → World → Result A × World → Type 0
Refused before x = Post (λ a w. ⊥) (λ w. w.disk ≡ before.disk) x

-- No receipt is under the identifier at the revision.
abbrev pub IsStale : Jobs → Text → ℕ → Type 0
IsStale jobs k n = (r : InstallJobReceipt) → job k jobs ≡ some r → r.revision ≢ n

module _ (p : Platform) (k : Text) (n : ℕ) (w : World) (jobs : Jobs) where
  swap-Refused :
      {A : Type 0} (f : InstallJobReceipt → M A) (loaded : Jobs) (w1 : World)
      → IsStale loaded k n
      → w1.disk ≡ w.disk
      → Refused w ((looking (λ v. checked_current loaded k n) >>= f) w1)
  swap-Refused f loaded w1 stale same =
      Post-bind {R = λ r w'. ⊥} _ _ w1
        (Post-looking _ w1
          (λ r e. let (found, revision) = checked_current-ok loaded k n e in stale r found revision)
          same)
        λ r w2 q. absurd q

  after_load-Refused :
      {A : Type 0} (f : Jobs → InstallJobReceipt → M A) (w0 : World)
      → w0.disk ≡ w.disk
      → durable p w.disk ≡ some jobs
      → IsStale jobs k n
      → Refused w (
          (load_refreshed p >>= λ loaded. looking (λ v. checked_current loaded k n) >>= f loaded)
            w0)
  after_load-Refused f w0 here held stale =
      Post-bind _ _ w0
        (Post-weaken {Q = λ loaded w'. Loaded p w0 loaded w'} _ (load_refreshed-Post p w0)
          (λ loaded w' q. q) (λ w' q. q.1 ∙ here))
        λ loaded w1 (c1, disk, cached, fewer).
          let same = disk ∙ here in
          let is_jobs : loaded ≡ jobs =
            some_eq (sym (ap (durable p) (sym same) ∙ c1.fresh loaded cached) ∙ held) in
          swap-Refused (f loaded) loaded w1 (subst (λ x. IsStale x k n) (sym is_jobs) stale) same

  -- When the store holds no receipt under the identifier at the expected revision, a cancellation
  -- request, a claim and a transition all raise, whatever else they are given and however the awaited
  -- calls end, and the disk is as it was.
  pub stale-Refused :
      (clock : Text) (cleanup : Option ℕ) (phase : Phase) (f : Facts)
      → durable p w.disk ≡ some jobs
      → IsStale jobs k n
      → Refused w (request_cancel p clock k n w)
        × Refused w (claim p clock k n cleanup w)
        × Refused w (transition p clock k n phase f w)
  unfolding request_cancel claim transition
  stale-Refused clock cleanup phase f held stale = (
    after_load-Refused _ w refl held stale,
    after_load-Refused _ w refl held stale,
    Post-bind {R = λ u w'. w'.disk ≡ w.disk} _ _ w
        (Post-require (facts_valid p f) transition_error w (λ h. refl) refl)
        λ u w0 here. after_load-Refused _ w0 here held stale,
  )
