-- ===== src/InstallJobs/Proofs/Coherence.antt =====
-- Loading: the cache of a manager against the disk, and the claims against the cache.
pub use ha_paneld_home_assistant.Prelude.{some_eq}
use ha_paneld_home_assistant.Prelude.{
  ℕ, ◌≡◌, refl, sym, ap, subst, ◌∙◌, Bool, true, false, not, Option, none, some, [], ◌∷◌, Text,
  text_eq, text_eq_iff, arith, if◌then◌else◌, Bool-cases, inl, inr,
}
use ha_paneld_home_assistant.Platform.{Platform}
use ha_paneld_home_assistant.InstallJobs.Document.{Jobs, job}
use ha_paneld_home_assistant.InstallJobs.Disk.{Disk, store_presence, read_disk}
use ha_paneld_home_assistant.InstallJobs.World.{
  World, Result, ok, raise, Weather, pass, store_error, pure,
}
use ha_paneld_home_assistant.InstallJobs.Manager.Claims.{
  ClaimMap, claim_of, reconciled, keeps_claim, adopt, invalidate_cache,
}
use ha_paneld_home_assistant.InstallJobs.Manager.Load.{
  ends_as, await_job, adopting, adopted, existing_jobs, read_fresh, load_refreshed,
}
use ha_paneld_home_assistant.InstallJobs.Proofs.Post.{
  Post, returns, raises, Post-weaken, Post-bind, Post-require, Post-looking, Post-result,
}

-- Only the weather has passed.
pub record Still (v w : World) : Type 0 where
  pub cache : w.cache ≡ v.cache
  pub claims : w.claims ≡ v.claims
  pub disk : w.disk ≡ v.disk

-- What the disk holds: no file is no job.
unfoldable pub durable : Platform → Disk → Option Jobs
durable p d = elim d.file [ none ↦ some [] | some f ↦ read_disk p d ]

-- A cache is what the disk holds, and a claim names a receipt of the cache that its holder may
-- advance, at its executor generation.
pub record IsCoherent (p : Platform) (w : World) : Type 0 where
  pub fresh : (jobs : Jobs) → w.cache ≡ some jobs → durable p w.disk ≡ some jobs
  pub claimed :
      (k : Text) (g : ℕ)
      → claim_of k w.claims ≡ some g
      → (jobs : Jobs) × (w.cache ≡ some jobs) × (keeps_claim (job k jobs) g ≡ true)

pub claim_of-reconciled :
    (jobs : Jobs) (claims : ClaimMap) (k : Text) (g : ℕ)
    → claim_of k (reconciled jobs claims) ≡ some g
    → keeps_claim (job k jobs) g ≡ true
unfolding claim_of reconciled
claim_of-reconciled jobs [] k g h = cc
claim_of-reconciled jobs ((i, n) ∷ claims) k g h = elim (Bool-cases (keeps_claim (job i jobs) n)) [
  | inr dropped ↦ claim_of-reconciled jobs claims k g (rw dropped at h)
  | inl kept ↦ elim (Bool-cases (text_eq i k)) [
    | inl same ↦
        subst (λ x. keeps_claim (job x jobs) g ≡ true) ((text_eq_iff i k).0 same)
          (subst (λ m. keeps_claim (job i jobs) m ≡ true) (some_eq (rw (kept, same) at h)) kept)
    | inr other ↦ claim_of-reconciled jobs claims k g (rw (kept, other) at h)
  ]
]

-- No claim is new.
abbrev pub Fewer : ClaimMap → ClaimMap → Type 0
Fewer before after = (k : Text) → claim_of k before ≡ none → claim_of k after ≡ none

claim_of-reconciled_none : (jobs : Jobs) (claims : ClaimMap) → Fewer claims (reconciled jobs claims)
unfolding claim_of reconciled
claim_of-reconciled_none jobs [] k h = h
claim_of-reconciled_none jobs ((i, n) ∷ claims) k h = elim (Bool-cases (text_eq i k)) [
  | inl same ↦ cc (rw same at h)
  | inr other ↦
      let rest = claim_of-reconciled_none jobs claims k (rw other at h) in
      elim (Bool-cases (keeps_claim (job i jobs) n)) [
        | inl kept ↦ rw (kept, other) rest
        | inr dropped ↦ rw dropped rest
      ]
]

module _ (p : Platform) where
  pub adopt-IsCoherent :
      (jobs : Jobs) (w : World) → durable p w.disk ≡ some jobs → IsCoherent p (adopt jobs w)
  unfolding adopt
  adopt-IsCoherent jobs w h = record {
    fresh = λ others e. h ∙ e;
    claimed = λ k g e. (jobs, refl, claim_of-reconciled jobs w.claims k g e);
  }

  pub invalidate_cache-IsCoherent : (w : World) → IsCoherent p (invalidate_cache w)
  unfolding invalidate_cache claim_of
  invalidate_cache-IsCoherent w = record { fresh = λ jobs e. cc; claimed = λ k g e. cc }

pub pass-Still : (w : World) → Still w (pass w)
unfolding pass
pass-Still w = record { cache = refl; claims = refl; disk = refl }

pub Still-trans : {u v w : World} → Still u v → Still v w → Still u w
Still-trans s t = record {
  cache = t.cache ∙ s.cache;
  claims = t.claims ∙ s.claims;
  disk = t.disk ∙ s.disk;
}

ends_as-ok : {A : Type 0} (x : Weather) (o : Option A) {a : A} → ends_as x o ≡ ok a → o ≡ some a
unfolding ends_as
ends_as-ok x o h = ground arith

pub await_job-Post :
    {A : Type 0} (look : Disk → Option A) (w : World)
    → Post (λ a w'. (look w.disk ≡ some a) × Still w w') (Still w) (await_job look w)
unfolding await_job
await_job-Post look w =
    Post-result _ (pass w) (λ a e. (ends_as-ok _ _ e, pass-Still w)) (pass-Still w)

if_ok : {A : Type 0} (b : Bool) {a c : A} → (if b then ok a else raise store_error) ≡ ok c → a ≡ c
if_ok true h = cc
if_ok false h = cc

module _ (p : Platform) where
  -- The state after a load that fails, and after one that returns `jobs`.
  abbrev pub Reloaded : World → World → Type 0
  Reloaded v w = IsCoherent p w × (w.disk ≡ v.disk)

  abbrev pub Loaded : World → Jobs → World → Type 0
  Loaded v jobs w =
      IsCoherent p w × (w.disk ≡ v.disk) × (w.cache ≡ some jobs) × Fewer v.claims w.claims

  existing_jobs-Post :
      (existed : Bool) (w : World)
      → (existed ≡ false → durable p w.disk ≡ some [])
      → (existed ≡ true → durable p w.disk ≡ read_disk p w.disk)
      → Post
          (λ jobs w'. (durable p w.disk ≡ some jobs) × Still w w')
          (Still w)
          (existing_jobs p existed w)
  unfolding existing_jobs pure
  existing_jobs-Post false w f t =
      returns (f refl, record { cache = refl; claims = refl; disk = refl })
  existing_jobs-Post true w f t =
      Post-weaken _ (await_job-Post (read_disk p) w) (λ a w' q. (t refl ∙ q.0, q.1)) (λ w' q. q)

  pub presence-durable :
      (d : Disk) {existed corrupt : Bool}
      → store_presence p d ≡ some (existed, corrupt)
      → (existed ≡ false → durable p d ≡ some []) × (existed ≡ true → durable p d ≡ read_disk p d)
  unfolding store_presence durable
  presence-durable d h = (λ e. ground arith, λ e. ground arith)

  existing_from :
      (w : World) (a : Bool × Bool) (w2 : World)
      → store_presence p w.disk ≡ some a
      → Still w w2
      → Post
          (λ jobs w'. (durable p w.disk ≡ some jobs) × Still w w')
          (Still w)
          (existing_jobs p a.0 w2)
  existing_from w a w2 h s =
      let shown = presence-durable w2.disk (ap (store_presence p) s.disk ∙ h) in
      Post-weaken _ (existing_jobs-Post a.0 w2 shown.0 shown.1)
        (λ jobs w' q. (ap (durable p) (sym s.disk) ∙ q.0, Still-trans s q.1))
        (λ w' q. Still-trans s q)

  read_fresh-Post :
      (w : World)
      → Post (λ jobs w'. (durable p w.disk ≡ some jobs) × Still w w') (Still w) (read_fresh p w)
  unfolding read_fresh
  read_fresh-Post w = Post-bind _ _ w (await_job-Post (store_presence p) w) λ a w1 q.
      let s = q.1 in
      Post-bind _ _ w1 (Post-require (not a.1) store_error w1 (λ b. s) s) λ u w2 s2.
        Post-bind _ _ w2 (existing_from w a w2 q.0 s2) λ loaded w3 r.
          Post-looking _ w3 (λ b e. (subst (λ x. durable p w.disk ≡ some x) (if_ok _ e) r.0, r.1))
            r.1

  -- A load that read the disk of `v`, what else is known of what was read, and what is known of the
  -- disk after a load that failed.
  pub adopted-Post :
      (Q : Jobs → Type 0) (D : Disk → Type 0) (v : World) (x : Result Jobs × World)
      → Post (λ jobs w'. Q jobs × ((durable p v.disk ≡ some jobs) × Still v w')) (λ w'. D w'.disk) x
      → Post (λ jobs w'. Q jobs × Loaded v jobs w') (λ w'. IsCoherent p w' × D w'.disk) (adopted x)
  unfolding adopted adopt invalidate_cache
  adopted-Post Q D v (ok jobs, w') (returns (q, (held, s))) = returns (
    q,
    (
      adopt-IsCoherent p jobs w' (ap (durable p) s.disk ∙ held),
      s.disk,
      refl,
      λ k e. claim_of-reconciled_none jobs w'.claims k (ap (claim_of k) s.claims ∙ e),
    ),
  )
  adopted-Post Q D v (raise e, w') (raises d) = raises (invalidate_cache-IsCoherent p w', d)

  -- A refreshed load returns what the disk holds and caches it; when it fails, the state is
  -- coherent. Either way the disk is as it was.
  pub load_refreshed-Post : (w : World) → Post (Loaded w) (Reloaded w) (load_refreshed p w)
  unfolding load_refreshed adopting
  load_refreshed-Post w =
      Post-weaken _
        (adopted-Post (λ jobs. Unit {0}) (λ d. d ≡ w.disk) w (read_fresh p w)
          (Post-weaken _ (read_fresh-Post w) (λ jobs w' q. (tt, q)) (λ w' s. s.disk)))
        (λ jobs w' q. q.1) (λ w' q. q)
