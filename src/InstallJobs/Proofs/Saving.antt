-- ===== src/InstallJobs/Proofs/Saving.antt =====
-- Saving: what a save has left, on the disk and in the cache.
use ha_paneld_home_assistant.Prelude.{
  ◌≡◌, refl, ap, subst, ◌∙◌, is_some, Bool, true, false, ◌&&◌, ◌||◌, Option, none, some, arith,
  and-eq-true, [], ◌∷◌, ◌≢◌, ℕ, Text,
}
use ha_paneld_home_assistant.Value.{Value, value_eq}
use ha_paneld_home_assistant.Platform.{Platform}
use ha_paneld_home_assistant.InstallJobs.Document.{
  Jobs, jobs_eq, serialize_document, validated_document_for_save,
}
use ha_paneld_home_assistant.InstallJobs.Disk.{Disk, store_presence, read_disk}
use ha_paneld_home_assistant.InstallJobs.World.{World}
use ha_paneld_home_assistant.InstallJobs.Manager.Claims.{
  adopt, ClaimMap, claim_of, invalidate_cache,
}
use ha_paneld_home_assistant.InstallJobs.Manager.Save.{
  drain, look, read_shown, presence_shown, save_candidate, store_save, finish, read_back,
  look_again, write_verified, save_locked, may_follow, readback_matches,
}
use ha_paneld_home_assistant.InstallJobs.Proofs.Post.{Post, returns, raises, Post-if, Post-weaken}
use ha_paneld_home_assistant.InstallJobs.Proofs.Coherence.{
  IsCoherent, durable, some_eq, adopt-IsCoherent,
}

drain-look :
    (p : Platform) {A : Type 0} (f : Disk → Option A) (w : World)
    → ((a : A) → (drain (look p f) w).result ≡ some a → f w.disk ≡ some a)
      × ((drain (look p f) w).world.disk ≡ w.disk)
unfolding drain look
drain-look p f w = (λ a e. ground arith, ground arith)

presence-exists :
    (p : Platform) (d : Disk) (corrupt : Bool)
    → store_presence p d ≡ some (true, corrupt)
    → durable p d ≡ read_disk p d
unfolding store_presence durable
presence-exists p d corrupt h = ground arith

-- No cache and no claim: the next method loads the file again, and nothing is advanced before a new
-- claim.
abbrev pub Forgotten : World → Type 0
Forgotten w = (w.cache ≡ none) × (w.claims ≡ [])

invalidate_cache-Forgotten : (w : World) → Forgotten (invalidate_cache w)
unfolding invalidate_cache
invalidate_cache-Forgotten w = (refl, refl)

claim_of-none : (k : Text) (g : ℕ) (claims : ClaimMap) → claims ≡ [] → claim_of k claims ≢ some g
unfolding claim_of
claim_of-none k g [] e = λ h. cc
claim_of-none k g (c ∷ cs) e = cc

Forgotten-IsCoherent : (p : Platform) (w : World) → Forgotten w → IsCoherent p w
Forgotten-IsCoherent p w (no_cache, no_claim) = record {
  fresh = λ jobs e. cc;
  claimed = λ k g e. absurd (claim_of-none k g w.claims no_claim e);
}

module _ (p : Platform) where
  -- After a save of `jobs` that returned: the cache equals them, and is what the disk holds.
  abbrev pub Saved : Jobs → World → Type 0
  Saved jobs w =
      IsCoherent p w × (saved : Jobs) × (w.cache ≡ some saved) × (jobs_eq saved jobs ≡ true)

  finish-Post :
      (jobs : Jobs) (c s : Bool) (v : Option Jobs) (w : World)
      → (s ≡ true → (x : Jobs) → v ≡ some x → (durable p w.disk ≡ some x) × (jobs_eq x jobs ≡ true))
      → Post (λ u w'. Saved jobs w') Forgotten (finish p c s v w)
  unfolding finish adopt
  finish-Post jobs true s v w h = raises (invalidate_cache-Forgotten w)
  finish-Post jobs false false v w h = raises (invalidate_cache-Forgotten w)
  finish-Post jobs false true none w h = raises (invalidate_cache-Forgotten w)
  finish-Post jobs false true (some x) w h =
      let (held, same) = h refl x refl in returns (adopt-IsCoherent p x w held, x, refl, same)

  read_shown-Post :
      (document : Value) (jobs : Jobs) (c s : Bool) (v : Option Jobs) (w : World)
      → ((x : Jobs) → v ≡ some x → durable p w.disk ≡ some x)
      → Post (λ u w'. Saved jobs w') Forgotten (read_shown p document jobs c s v w)
  unfolding read_shown readback_matches
  read_shown-Post document jobs c s none w h = finish-Post jobs c false none w (λ e. cc)
  read_shown-Post document jobs c s (some x) w h =
      finish-Post jobs c (s && (jobs_eq x jobs && value_eq (serialize_document x) document))
        (some x) w
        λ e y same. (
          h y same,
          subst (λ z. jobs_eq z jobs ≡ true) (some_eq same)
              (and-eq-true _ _ (and-eq-true s _ e).1).0,
        )

  read_back-Post :
      (document : Value) (jobs : Jobs) (c s : Bool) (w : World)
      → durable p w.disk ≡ read_disk p w.disk
      → Post (λ u w'. Saved jobs w') Forgotten (read_back p document jobs c s w)
  unfolding read_back
  read_back-Post document jobs c s w h =
      let d = drain (look p (read_disk p)) w in
      let (shown, still) = drain-look p (read_disk p) w in
      read_shown-Post document jobs (c || d.cancellation) s d.result d.world
        (λ x e. ap (durable p) still ∙ (h ∙ shown x e))

  presence_shown-Post :
      (document : Value) (jobs : Jobs) (c s : Bool) (o : Option (Bool × Bool)) (w : World)
      → ((corrupt : Bool) → o ≡ some (true, corrupt) → durable p w.disk ≡ read_disk p w.disk)
      → Post (λ u w'. Saved jobs w') Forgotten (presence_shown p document jobs c s o w)
  unfolding presence_shown
  presence_shown-Post document jobs c s none w h = finish-Post jobs c false none w (λ e. cc)
  presence_shown-Post document jobs c s (some (true, false)) w h =
      read_back-Post document jobs c s w (h false refl)
  presence_shown-Post document jobs c s (some (_, _)) w h =
      finish-Post jobs c false none w (λ e. cc)

  look_again-Post :
      (document : Value) (jobs : Jobs) (c s : Bool) (w : World)
      → Post (λ u w'. Saved jobs w') Forgotten (look_again p document jobs c s w)
  unfolding look_again
  look_again-Post document jobs c s w =
      let d = drain (look p (store_presence p)) w in
      let (shown, still) = drain-look p (store_presence p) w in
      presence_shown-Post document jobs (c || d.cancellation) s d.result d.world λ corrupt e.
        presence-exists p d.world.disk corrupt (ap (store_presence p) still ∙ shown _ e)

  save_candidate-Post :
      (jobs : Jobs) (o : Option Value) (w : World)
      → Post (λ u w'. Saved jobs w') Forgotten (save_candidate p jobs o w)
  unfolding save_candidate write_verified
  save_candidate-Post jobs none w = raises (invalidate_cache-Forgotten w)
  save_candidate-Post jobs (some document) w =
      let d = drain (store_save p document) w in
      Post-if (may_follow w.cache jobs) _ _
        (λ e. look_again-Post document jobs d.cancellation (is_some d.result) d.world)
        (λ e. raises (invalidate_cache-Forgotten w))

  -- Whatever the outcomes of the awaited calls, a save of `jobs` either returns, and then the state is
  -- coherent, the cache equals `jobs` and so does what the disk holds; or it raises, and then no
  -- cache and no claim is left.
  pub save_locked-Saved :
      (jobs : Jobs) (w : World) → Post (λ u w'. Saved jobs w') Forgotten (save_locked p jobs w)
  unfolding save_locked
  save_locked-Saved jobs w = save_candidate-Post jobs (validated_document_for_save p jobs) w

  pub save_locked-Post :
      (jobs : Jobs) (w : World) → Post (λ u w'. Saved jobs w') (IsCoherent p) (save_locked p jobs w)
  save_locked-Post jobs w =
      Post-weaken _ (save_locked-Saved jobs w) (λ u w' q. q) (λ w' q. Forgotten-IsCoherent p w' q)
