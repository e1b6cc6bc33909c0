-- ===== src/InstallJobs/Proofs/Finality.antt =====
-- Terminal receipts: no method takes a job out of a terminal phase.
use ha_paneld_home_assistant.Prelude.{
  ℕ, ◌≡◌, refl, sym, ap, subst, ◌∙◌, Bool, true, not, ◌||◌, Option, some, Text, arith,
}
use ha_paneld_home_assistant.Platform.{Platform}
use ha_paneld_home_assistant.InstallJobs.Phase.{
  Phase, phase_eq, in_phases, next_phases, cancellable_phases, healthy_unclaimed,
}
use ha_paneld_home_assistant.InstallJobs.Receipt.{InstallJobReceipt, is_terminal}
use ha_paneld_home_assistant.InstallJobs.Document.{Jobs, job}
use ha_paneld_home_assistant.InstallJobs.World.{World, M, require, looking, ◌>>=◌, transition_error}
use ha_paneld_home_assistant.InstallJobs.Manager.Current.{checked_current}
use ha_paneld_home_assistant.InstallJobs.Manager.Load.{load_refreshed}
use ha_paneld_home_assistant.InstallJobs.Manager.Operations.Cancel.{request_cancel}
use ha_paneld_home_assistant.InstallJobs.Manager.Operations.Claim.{claim}
use ha_paneld_home_assistant.InstallJobs.Manager.Operations.Transition.{
  Facts, facts_valid, edge_allowed, guarded, transition,
}
use ha_paneld_home_assistant.InstallJobs.Proofs.Post.{
  Post-weaken, Post-bind, Post-require, Post-looking,
}
use ha_paneld_home_assistant.InstallJobs.Proofs.Coherence.{
  durable, Loaded, load_refreshed-Post, some_eq,
}
use ha_paneld_home_assistant.InstallJobs.Proofs.Stored.{checked_current-ok}
use ha_paneld_home_assistant.InstallJobs.Proofs.Refusals.{Refused}

no_cancel :
    (r : InstallJobReceipt) → is_terminal r ≡ true → in_phases r.phase cancellable_phases ≡ true → ⊥
unfolding is_terminal in_phases
no_cancel r t h = ground arith

no_claim :
    (r : InstallJobReceipt)
    → is_terminal r ≡ true
    → not (is_terminal r || phase_eq r.phase healthy_unclaimed) ≡ true
    → ⊥
no_claim r t h = cc (rw t at h)

no_edge :
    (r : InstallJobReceipt) (phase : Phase) → is_terminal r ≡ true → edge_allowed r phase ≡ true → ⊥
unfolding is_terminal edge_allowed in_phases next_phases
no_edge r phase t h = ground arith

-- A guard that does not hold.
shut :
    {A : Type 0} (w w1 : World) (b : Bool) (rest : M A)
    → (b ≡ true → ⊥)
    → w1.disk ≡ w.disk
    → Refused w ((require b transition_error >>= λ u. rest) w1)
shut w w1 b rest h same =
    Post-bind {R = λ u w'. ⊥} _ _ w1 (Post-require b transition_error w1 h same) λ u w2 q. absurd q

module _ (p : Platform) (k : Text) (n : ℕ) (w : World) (jobs : Jobs) (r : InstallJobReceipt) where
  at_receipt-Refused :
      {A : Type 0} (f : Jobs → InstallJobReceipt → M A) (w0 : World)
      → ((loaded : Jobs) (w1 : World) → w1.disk ≡ w.disk → Refused w (f loaded r w1))
      → w0.disk ≡ w.disk
      → durable p w.disk ≡ some jobs
      → job k jobs ≡ some r
      → Refused w (
          (load_refreshed p >>= λ loaded. looking (λ v. checked_current loaded k n) >>= f loaded)
            w0)
  at_receipt-Refused f w0 refuses here held found =
      Post-bind _ _ w0
        (Post-weaken {Q = λ loaded w'. Loaded p w0 loaded w'} _ (load_refreshed-Post p w0)
          (λ loaded w' q. q) (λ w' q. q.1 ∙ here))
        λ loaded w1 (c1, disk, cached, fewer).
          let same = disk ∙ here in
          let is_jobs : loaded ≡ jobs =
            some_eq (sym (ap (durable p) (sym same) ∙ c1.fresh loaded cached) ∙ held) in
          Post-bind {R = λ c w'. (c ≡ r) × (w'.disk ≡ w.disk)} _ _ w1
            (Post-looking _ w1
              (λ c e. (
                some_eq
                    (sym (ap (job k) (sym is_jobs) ∙ (checked_current-ok loaded k n e).0) ∙ found),
                same,
              ))
              same)
            λ c w2 (is_r, still).
              subst (λ x. Refused w (f loaded x w2)) (sym is_r) (refuses loaded w2 still)

  -- When the store holds a terminal receipt under the identifier, a cancellation request, a claim and
  -- a transition all raise, at any expected revision, whatever else they are given and however the
  -- awaited calls end, and the disk is as it was: a terminal receipt is final.
  pub terminal-Refused :
      (clock : Text) (cleanup : Option ℕ) (phase : Phase) (f : Facts)
      → durable p w.disk ≡ some jobs
      → job k jobs ≡ some r
      → is_terminal r ≡ true
      → Refused w (request_cancel p clock k n w)
        × Refused w (claim p clock k n cleanup w)
        × Refused w (transition p clock k n phase f w)
  unfolding request_cancel claim transition guarded
  terminal-Refused clock cleanup phase f held found over = (
    at_receipt-Refused _ w (λ loaded w1 same. shut w w1 _ _ (no_cancel r over) same) refl held
        found,
    at_receipt-Refused _ w (λ loaded w1 same. shut w w1 _ _ (no_claim r over) same) refl held found,
    Post-bind {R = λ u w'. w'.disk ≡ w.disk} _ _ w
        (Post-require (facts_valid p f) transition_error w (λ h. refl) refl)
        λ u w0 here.
          at_receipt-Refused _ w0
            (λ loaded w1 same.
              Post-bind {R = λ v w'. ⊥} _ _ w1 (shut w w1 _ _ (no_edge r phase over) same)
                λ v w2 q. absurd q)
            here held found,
  )
