-- ===== src/InstallJobs/Proofs/Transitions.antt =====
-- `async_transition`: what a call that returns has done, and what a refused one leaves.
use ha_paneld_home_assistant.Prelude.{
  ℕ, ◌≡◌, ◌≢◌, refl, sym, ap, subst, ◌∙◌, Bool, true, false, none, some, Text, arith, ◌⊎◌, inl, inr,
  List, Bool-cases, if◌then◌else◌,
}
use ha_paneld_home_assistant.Platform.{Platform}
use ha_paneld_home_assistant.InstallJobs.Phase.{Phase, phase_eq, healthy_unclaimed}
use ha_paneld_home_assistant.InstallJobs.Receipt.{InstallJobReceipt}
use ha_paneld_home_assistant.InstallJobs.Scalars.{timestamp_text}
use ha_paneld_home_assistant.InstallJobs.Invariants.{validate_receipt_invariants}
use ha_paneld_home_assistant.InstallJobs.Document.{Jobs, job}
use ha_paneld_home_assistant.InstallJobs.World.{World, ok, raise, transition_error, store_error}
use ha_paneld_home_assistant.InstallJobs.Manager.Claims.{claim_of, holds_claim}
use ha_paneld_home_assistant.InstallJobs.Manager.Operations.Transition.{
  Facts, facts_valid, edge_allowed, claim_allows, facts_allowed, result_allowed, advanced, guarded,
  transition,
}
use ha_paneld_home_assistant.InstallJobs.Proofs.Lookup.{holds_claim-claim_of}
use ha_paneld_home_assistant.InstallJobs.Proofs.Post.{
  Post, Post-ok, Post-weaken, Post-bind, Post-require, Post-or_throw, Post-looking,
}
use ha_paneld_home_assistant.InstallJobs.Proofs.Coherence.{
  IsCoherent, durable, Loaded, load_refreshed-Post, Fewer,
}
use ha_paneld_home_assistant.InstallJobs.Proofs.Stored.{
  Stored, checked_current-ok, prune_and_save_receipt-Post,
}

-- What a transition that returns `r` has done to the store of `before`.
pub record HasAdvanced (p : Platform) (before : World) (k : Text) (n : ℕ) (phase : Phase)
    (f : Facts) (r : InstallJobReceipt) (after : World) : Type 0 where
  pub jobs : Jobs
  pub current : InstallJobReceipt
  pub now : Text
  pub held : durable p before.disk ≡ some jobs
  pub found : job k jobs ≡ some current
  pub revision : current.revision ≡ n
  pub edge : edge_allowed current phase ≡ true
  pub facts : facts_allowed current phase f ≡ true
  pub result : result_allowed current phase f ≡ true
  pub claim : (claim_of k before.claims ≢ none) ⊎ (phase_eq current.phase healthy_unclaimed ≡ true)
  pub valid : validate_receipt_invariants p r ≡ some tt
  pub stored : Stored p k (advanced current phase f now) r after

claim_allows-claimed :
    (r : InstallJobReceipt) (phase : Phase) (k : Text) (claims : List (Text × ℕ))
    → claim_allows r phase k claims ≡ true
    → (claim_of k claims ≢ none) ⊎ (phase_eq r.phase healthy_unclaimed ≡ true)
unfolding claim_allows
claim_allows-claimed r phase k claims h =
    elim (Bool-cases (holds_claim k r.executor_generation claims)) [
      | inl held ↦ inl (holds_claim-claim_of k r.executor_generation claims held)
      | inr free ↦ inr (ground arith)
    ]

test_ok :
    (b : Bool) {u : Unit {0}} → (if b then ok tt else raise transition_error) ≡ ok u → b ≡ true
test_ok true h = refl
test_ok false h = cc

record IsGuarded (r : InstallJobReceipt) (phase : Phase) (f : Facts) (k : Text) (w : World)
    : Type 0 where
  edge : edge_allowed r phase ≡ true
  claim : claim_allows r phase k w.claims ≡ true
  facts : facts_allowed r phase f ≡ true
  result : result_allowed r phase f ≡ true

module _ (p : Platform) (r : InstallJobReceipt) (phase : Phase) (f : Facts) (k : Text) where
  guarded-Post :
      (w : World)
      → Post (λ u w'. IsGuarded r phase f k w × (w' ≡ w)) (λ w'. w' ≡ w) (guarded p r phase f k w)
  unfolding guarded
  guarded-Post w =
      Post-bind {R = λ u w'. (edge_allowed r phase ≡ true) × (w' ≡ w)} _ _ w
        (Post-require (edge_allowed r phase) transition_error w (λ h. (h, refl)) refl)
        λ u1 w1 (edge, s1).
          Post-bind {R = λ u w'. (claim_allows r phase k w.claims ≡ true) × (w' ≡ w)} _ _ w1
            (Post-looking _ w1
              (λ a e. (subst (λ v. claim_allows r phase k v.claims ≡ true) s1 (test_ok _ e), s1))
              s1)
            λ u2 w2 (claim, s2).
              Post-bind {R = λ u w'. (facts_allowed r phase f ≡ true) × (w' ≡ w)} _ _ w2
                (Post-require (facts_allowed r phase f) transition_error w2 (λ h. (h, s2)) s2)
                λ u3 w3 (facts, s3).
                  Post-require (result_allowed r phase f) transition_error w3
                    (λ result.
                      (record { edge = edge; claim = claim; facts = facts; result = result }, s3))
                    s3

module _ (p : Platform) (clock k : Text) (n : ℕ) (phase : Phase) (f : Facts) where
  pub transition-Post :
      (w : World)
      → IsCoherent p w
      → Post
          (λ r w'. HasAdvanced p w k n phase f r w')
          (IsCoherent p)
          (transition p clock k n phase f w)
  unfolding transition
  transition-Post w c =
      Post-bind {R = λ u w'. w' ≡ w} _ _ w
        (Post-require (facts_valid p f) transition_error w (λ h. refl) c)
        λ u w0 s0.
          Post-bind _ _ w0
            (Post-weaken {Q = λ jobs w'. Loaded p w jobs w'} _ (load_refreshed-Post p w0)
              (λ jobs w' q. subst (λ v. Loaded p v jobs w') s0 q) (λ w' q. q.0))
            λ jobs w1 (c1, disk, cached, fewer).
              Post-bind
                {R = λ current w'. (job k jobs ≡ some current) × (current.revision ≡ n) × (w' ≡ w1)}
                _ _ w1
                (Post-looking _ w1
                  (λ a e.
                    let (found, revision) = checked_current-ok jobs k n e in
                    (found, revision, refl))
                  c1)
                λ current w2 (found, revision, s2).
                  let c2 = subst (IsCoherent p) (sym s2) c1 in
                  Post-bind {R = λ u w'. IsGuarded current phase f k w2 × (w' ≡ w2)} _ _ w2
                    (Post-weaken _ (guarded-Post p current phase f k w2) (λ u w' q. q)
                      (λ w' s. subst (IsCoherent p) (sym s) c2))
                    λ u3 w3 (guards, s3).
                      let c3 = subst (IsCoherent p) (sym s3) c2 in
                      Post-bind {R = λ now w'. w' ≡ w3} _ _ w3
                        (Post-or_throw (timestamp_text p clock) store_error w3 (λ a e. refl) c3)
                        λ now w4 s4.
                          let c4 = subst (IsCoherent p) (sym s4) c3 in
                          let updated = advanced current phase f now in
                          Post-bind
                            {R = λ v w'.
                              (validate_receipt_invariants p updated ≡ some v) × (w' ≡ w4)}
                            _ _ w4
                            (Post-or_throw (validate_receipt_invariants p updated) transition_error
                              w4 (λ a e. (e, refl)) c4)
                            λ v w5 (valid, s5).
                              Post-weaken _
                                (prune_and_save_receipt-Post p jobs k updated w5
                                  (subst (IsCoherent p) (sym s5) c4))
                                (λ r w' stored. record {
                                  jobs = jobs;
                                  current = current;
                                  now = now;
                                  held = ap (durable p) (sym disk) ∙ c1.fresh jobs cached;
                                  found = found;
                                  revision = revision;
                                  edge = guards.edge;
                                  facts = guards.facts;
                                  result = guards.result;
                                  claim = claimed_before current w1 w2 s2 fewer guards.claim;
                                  valid =
                                      subst (λ x. validate_receipt_invariants p x ≡ some tt)
                                        (sym stored.1) valid;
                                  stored = stored;
                                })
                                (λ w' q. q)
    where
      claimed_before :
          (current : InstallJobReceipt) (w1 w2 : World)
          → w2 ≡ w1
          → Fewer w.claims w1.claims
          → claim_allows current phase k w2.claims ≡ true
          → (claim_of k w.claims ≢ none) ⊎ (phase_eq current.phase healthy_unclaimed ≡ true)
      claimed_before current w1 w2 s fewer h =
          elim (claim_allows-claimed current phase k w2.claims h) [
            | inl held ↦ inl (λ e. held (ap (λ (v : World). claim_of k v.claims) s ∙ fewer k e))
            | inr healthy ↦ inr healthy
          ]

  -- From a coherent state, a transition that returns `r` found in the store, under the identifier
  -- and at the expected revision, a receipt from whose phase the table leads to the new phase; this
  -- manager held a claim on the job, unless the job was healthy and unclaimed; the facts given fit;
  -- `r` is that receipt advanced, it satisfies the receipt invariants, and the disk holds it.
  pub transition-HasAdvanced :
      (w : World) (r : InstallJobReceipt)
      → IsCoherent p w
      → (transition p clock k n phase f w).0 ≡ ok r
      → HasAdvanced p w k n phase f r (transition p clock k n phase f w).1
  transition-HasAdvanced w r c h = Post-ok _ (transition-Post w c) h
