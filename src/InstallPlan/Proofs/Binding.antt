-- ===== src/InstallPlan/Proofs/Binding.antt =====
-- `build_install_plan`: what a plan that is built binds, and that the job store takes it as it is.
use ha_paneld_home_assistant.Prelude.{
  ℕ, ◌≡◌, refl, sym, subst, ◌∙◌, Bool, true, arith, some_eq, ◌⊎◌, inl, inr, ◌&&◌, Option, none,
  some, leb, ◌==◌, ==_iff, Text, text_eq, text_eq_iff, mem_text, is_hex, and-eq-true,
}
use ha_paneld_home_assistant.Platform.{Platform, IpAddress}
use ha_paneld_home_assistant.Client.Address.{stored_value}
use ha_paneld_home_assistant.Network.{is_allowed_install_address}
use ha_paneld_home_assistant.Network.Target.{PinnedPanelTarget}
use ha_paneld_home_assistant.Provisioning.{InstallTargetProbe, is_candidate}
use ha_paneld_home_assistant.Release.Artifact.{ReleaseArtifact, InstallDescriptor}
use ha_paneld_home_assistant.InstallJobs.Receipt.{InstallTarget, InstallArtifact}
use ha_paneld_home_assistant.InstallJobs.Scalars.{is_adb_serial, is_abi, max_sdk}
use ha_paneld_home_assistant.InstallJobs.Parse.{install_plan_sha256}
use ha_paneld_home_assistant.InstallJobs.Manager.Operations.Create.{Plan}
use ha_paneld_home_assistant.InstallPlan.{build_install_plan}
use ha_paneld_home_assistant.Prelude.Raising.{built}
use ha_paneld_home_assistant.InstallPlan.Outcome.{
  invalid_target, probe_not_install_candidate, incomplete_probe, preview_only_release,
  invalid_release, invalid_credential, incompatible_release, invalid_plan,
}
use ha_paneld_home_assistant.InstallPlan.TargetPart.{
  is_canonical_address, names_pin, probed_target, build_target, passing, safe_text, is_safe_text,
  bounded_integer,
}
use ha_paneld_home_assistant.InstallPlan.ArtifactPart.{
  selection_matches, option_is, release_matches, descriptor_fits, artifact_of, build_artifact,
}
use ha_paneld_home_assistant.Prelude.Raising.{
  Yields, Yields-built, Yields-bind, Yields-require, Yields-or_refuse,
}

-- The target of a plan is the probed panel under the address that was pinned.
pub record IsBoundTarget (p : Platform) (pt : PinnedPanelTarget) (probe : InstallTargetProbe)
    (t : InstallTarget) : Type 0 where
  pub canonical : (is_canonical_address p pt.original && is_canonical_address p pt.pinned) ≡ true
  pub port : pt.original.port ≡ pt.pinned.port
  pub pinned_ip : IpAddress
  pub is_pinned : p.ip_address pt.pinned.host ≡ some pinned_ip
  pub allowed : is_allowed_install_address pinned_ip ≡ true
  pub named : names_pin p pt.original.host pinned_ip ≡ true
  pub candidate : is_candidate probe.state ≡ true
  pub address : t.address ≡ stored_value pt.original
  pub pinned_address : t.pinned_address ≡ stored_value pt.pinned
  pub model : probe.model ≡ some t.model
  pub serial : probe.serial ≡ some t.adb_serial
  pub primary_abi : probe.primary_abi ≡ some t.primary_abi
  pub android_sdk : probe.android_sdk ≡ some t.android_sdk

passing-some :
    (test : Text → Bool) (o : Option Text) {s : Text} → passing test o ≡ some s → o ≡ some s
unfolding passing
passing-some test none h = cc
passing-some test (some t) h = ground arith

safe_text-some :
    (p : Platform) (n : ℕ) (o : Option Text) {s : Text} → safe_text p n o ≡ some s → o ≡ some s
unfolding safe_text
safe_text-some p n o h = passing-some _ o h

bounded_integer-some :
    (a b : ℕ) (o : Option ℕ) {n : ℕ} → bounded_integer a b o ≡ some n → o ≡ some n
unfolding bounded_integer
bounded_integer-some a b none h = cc
bounded_integer-some a b (some n) h = ground arith

module _ (p : Platform) (pt : PinnedPanelTarget) (probe : InstallTargetProbe) where
  build_target-IsBoundTarget : Yields (IsBoundTarget p pt probe) (build_target p pt probe)
  unfolding build_target probed_target
  build_target-IsBoundTarget =
      Yields-require _ (is_canonical_address p pt.original && is_canonical_address p pt.pinned)
        invalid_target _
        λ canonical. Yields-require _ (pt.original.port == pt.pinned.port) invalid_target _ λ port.
          Yields-or_refuse _ (p.ip_address pt.pinned.host) invalid_target _ λ pinned_ip is_pinned.
            Yields-require _ (text_eq (p.ip_text pinned_ip) pt.pinned.host) invalid_target _
              λ spelt.
                Yields-require _ (is_allowed_install_address pinned_ip) invalid_target _ λ allowed.
                  Yields-require _ (names_pin p pt.original.host pinned_ip) invalid_target _
                    λ named.
                      Yields-require _ (is_candidate probe.state) probe_not_install_candidate _
                        λ candidate.
                          Yields-or_refuse _ (safe_text p 128 probe.model) incomplete_probe _
                            λ model e1.
                              Yields-or_refuse _
                                (passing is_adb_serial (safe_text p 128 probe.serial))
                                incomplete_probe _
                                λ serial e2.
                                  Yields-or_refuse _
                                    (passing is_abi (safe_text p 64 probe.primary_abi))
                                    incomplete_probe _
                                    λ primary_abi e3.
                                      Yields-or_refuse _
                                        (bounded_integer 1 max_sdk probe.android_sdk)
                                        incomplete_probe _
                                        λ sdk e4. Yields-built _ _ (record {
                                          canonical = canonical;
                                          port = (==_iff _ _).0 port;
                                          pinned_ip = pinned_ip;
                                          is_pinned = is_pinned;
                                          allowed = allowed;
                                          named = named;
                                          candidate = candidate;
                                          address = refl;
                                          pinned_address = refl;
                                          model = safe_text-some p 128 probe.model e1;
                                          serial =
                                              safe_text-some p 128 probe.serial
                                                (passing-some is_adb_serial _ e2);
                                          primary_abi =
                                              safe_text-some p 64 probe.primary_abi
                                                (passing-some is_abi _ e3);
                                          android_sdk =
                                              bounded_integer-some 1 max_sdk probe.android_sdk e4;
                                        })

-- The artifact of a plan is the release's own signed descriptor, which the caller's selection names.
pub record IsBoundArtifact (p : Platform) (release : ReleaseArtifact) (expected : Option Text)
    (a : InstallArtifact) : Type 0 where
  pub descriptor : InstallDescriptor
  pub described : release.descriptor ≡ some descriptor
  pub selected : selection_matches a.release_tag expected ≡ true
  pub tag : release.tag ≡ a.release_tag
  pub digest : release.sha256 ≡ a.apk_sha256
  pub apk_name : release.apk_name ≡ a.apk_name
  pub outcome : a ≡ artifact_of descriptor

option_is-some :
    (t : Text) (o : Option Text) {s : Text}
    → option_is t o ≡ true
    → (o ≡ none) ⊎ (o ≡ some s)
    → t ≡ s
unfolding option_is
option_is-some t none h e = cc
option_is-some t (some s) h (inr e) = sym ((text_eq_iff s t).0 h) ∙ some_eq e
option_is-some t (some s) h (inl e) = cc

passing-cases :
    (test : Text → Bool) (s : Text)
    → (passing test (some s) ≡ none) ⊎ (passing test (some s) ≡ some s)
unfolding passing
passing-cases test s = ground arith

module _ (p : Platform) (release : ReleaseArtifact) (expected : Option Text) where
  same_text : (n : ℕ) (t s : Text) → option_is t (safe_text p n (some s)) ≡ true → t ≡ s
  unfolding safe_text
  same_text n t s h =
      option_is-some t (passing (is_safe_text p n) (some s)) h (passing-cases (is_safe_text p n) s)

  fits :
      (d : InstallDescriptor) (tag : Text)
      → descriptor_fits p release expected d tag ≡ true
      → (selection_matches tag expected ≡ true) × (release_matches p release d tag ≡ true)
  unfolding descriptor_fits
  fits d tag h = and-eq-true _ _ (and-eq-true _ _ h).1

  matched :
      (d : InstallDescriptor) (tag : Text)
      → release_matches p release d tag ≡ true
      → (release.tag ≡ tag) × (release.apk_name ≡ d.apk_name) × (release.sha256 ≡ d.apk_sha256)
  unfolding release_matches
  matched d tag h =
      let (same_tag, h1) = and-eq-true _ _ h in
      let (same_name, same_sha256) = and-eq-true _ _ (and-eq-true _ _ h1).1 in
      (
        (text_eq_iff release.tag tag).0 same_tag,
        same_text 255 release.apk_name d.apk_name same_name,
        same_text 64 release.sha256 d.apk_sha256 same_sha256,
      )

  build_artifact-IsBoundArtifact :
      Yields (IsBoundArtifact p release expected) (build_artifact p release expected)
  unfolding build_artifact artifact_of
  build_artifact-IsBoundArtifact =
      Yields-or_refuse _ release.descriptor preview_only_release _ λ d described.
        Yields-or_refuse _ (safe_text p 128 (some d.release_tag)) invalid_release _ λ tag tagged.
          Yields-require _ (descriptor_fits p release expected d tag) invalid_release _ λ fit.
            let same = sym (some_eq (safe_text-some p 128 (some d.release_tag) tagged)) in
            let (selected, matching) = fits d tag fit in
            let (tag_same, name_same, digest_same) = matched d tag matching in
            Yields-built _ _ (record {
              descriptor = d;
              described = described;
              selected = subst (λ t. selection_matches t expected ≡ true) same selected;
              tag = tag_same ∙ same;
              digest = digest_same;
              apk_name = name_same;
              outcome = refl;
            })

-- What a plan that was built has bound.
pub record IsBound (p : Platform) (pt : PinnedPanelTarget) (probe : InstallTargetProbe)
    (release : ReleaseArtifact) (credential : Text) (expected : Option Text) (plan : Plan)
    : Type 0 where
  pub target : IsBoundTarget p pt probe plan.target
  pub artifact : IsBoundArtifact p release expected plan.artifact
  pub credential_id : plan.adb_credential_id ≡ credential
  pub is_digest : is_hex 64 credential ≡ true
  pub min_sdk : leb plan.artifact.min_sdk plan.target.android_sdk ≡ true
  pub primary_abi : mem_text plan.target.primary_abi plan.artifact.supported_abis ≡ true
  pub plan_sha256 :
      install_plan_sha256 p plan.target plan.artifact credential ≡ some plan.plan_sha256

module _ (p : Platform) (pt : PinnedPanelTarget) (probe : InstallTargetProbe)
    (release : ReleaseArtifact) (credential : Text) (expected : Option Text) where
  build-Yields :
      Yields
        (IsBound p pt probe release credential expected)
        (build_install_plan p pt probe release credential expected)
  unfolding build_install_plan
  build-Yields = Yields-bind _ (build_target p pt probe) _ λ target is_target.
      Yields-bind _ (build_artifact p release expected) _ λ artifact is_artifact.
        Yields-require _ (is_hex 64 credential) invalid_credential _ λ is_digest.
          Yields-require _ (leb artifact.min_sdk target.android_sdk) incompatible_release _
            λ min_sdk.
              Yields-require _ (mem_text target.primary_abi artifact.supported_abis)
                incompatible_release _
                λ primary_abi.
                  Yields-or_refuse _ (install_plan_sha256 p target artifact credential) invalid_plan
                    _
                    λ sha256 is_sha256. Yields-built _ _ (record {
                      target = build_target-IsBoundTarget p pt probe target is_target;
                      artifact =
                          build_artifact-IsBoundArtifact p release expected artifact is_artifact;
                      credential_id = refl;
                      is_digest = is_digest;
                      min_sdk = min_sdk;
                      primary_abi = primary_abi;
                      plan_sha256 = is_sha256;
                    })

  -- A plan that is built binds the probed panel, which was a candidate, under the address that was
  -- pinned and is allowed, the release's own descriptor, whose tag the selection names, and the
  -- credential; the panel runs the release, and the digest is the digest of them all.
  pub build_install_plan-IsBound :
      (plan : Plan)
      → build_install_plan p pt probe release credential expected ≡ built plan
      → IsBound p pt probe release credential expected plan
  build_install_plan-IsBound = build-Yields
