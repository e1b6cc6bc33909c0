-- ===== src/Provisioning/Candidates.antt =====
-- `async_probe_install_target` of custom_components/panel_assistant/provisioning.py: what a probe that
-- reports a candidate has proved.
use ha_paneld_home_assistant.Prelude.{
  ◌≤◌, ◌≡◌, refl, Bool, true, false, some, Text, mem_text, arith,
}
use ha_paneld_home_assistant.Prelude.Raising.{
  built, refused, ◌>>=◌, Yields, Yields-built, Yields-bind, Yields-or_refuse,
}
use ha_paneld_home_assistant.Platform.{Platform}
use ha_paneld_home_assistant.InstallJobs.Parse.{supported_abis_list}
use ha_paneld_home_assistant.Provisioning.{
  InstallTargetState, InstallTargetProbe, is_candidate, adb_unreachable, installed,
  retained_or_ambiguous,
}
use ha_paneld_home_assistant.Provisioning.Packages.{
  Presence, present, absent, unknown, Retained, retained, nothing, unclear, parse_package_presence,
  parse_retained_package_data,
}
use ha_paneld_home_assistant.Provisioning.Facts.{TargetFacts, parse_target_facts}
use ha_paneld_home_assistant.Provisioning.Probe.{
  malformed, unauthorized, unreachable, Probing, AdbDevice, min_android_sdk,
  package_presence_command, retained_package_data_command, target_facts_command,
  async_bounded_shell, only_state, facts_state, probe_of_facts, settled, read_facts, after_retained,
  after_presence, when_connected, async_probe_install_target,
}

module _ (p : Platform) (device : AdbDevice) (nonce1 nonce2 nonce3 : Text) where
  -- A panel on which three complete observations, each under its own nonce, have shown that the
  -- package is absent, that it left no data, and which device this is.
  pub record IsProved (probe : InstallTargetProbe) : Type 0 where
    pub connected : device.connect ≡ built true
    pub output1 : Text
    pub output2 : Text
    pub output3 : Text
    pub facts : TargetFacts
    pub looked1 : async_bounded_shell device (package_presence_command nonce1) ≡ built output1
    pub absence : parse_package_presence output1 nonce1 ≡ absent
    pub looked2 : async_bounded_shell device (retained_package_data_command nonce2) ≡ built output2
    pub no_data : parse_retained_package_data output2 nonce2 ≡ nothing
    pub looked3 : async_bounded_shell device (target_facts_command nonce3) ≡ built output3
    pub identified : parse_target_facts p output3 nonce3 ≡ some facts
    pub sdk : min_android_sdk ≤ facts.android_sdk
    pub abi : mem_text facts.primary_abi supported_abis_list ≡ true
    pub outcome : probe ≡ probe_of_facts facts

  -- If a probe is a candidate, it is proved.
  abbrev Proves : InstallTargetProbe → Type 0
  Proves probe = is_candidate probe.state ≡ true → IsProved probe

  only-Proves :
      (state : InstallTargetState) → is_candidate state ≡ false → Proves (only_state state)
  unfolding only_state
  only-Proves state other = λ h. cc

  candidate_facts :
      (facts : TargetFacts)
      → is_candidate (facts_state facts) ≡ true
      → (min_android_sdk ≤ facts.android_sdk)
        × (mem_text facts.primary_abi supported_abis_list ≡ true)
  unfolding facts_state is_candidate
  candidate_facts facts h = ground arith

  module _ (connected : device.connect ≡ built true) (output1 : Text)
      (looked1 : async_bounded_shell device (package_presence_command nonce1) ≡ built output1)
      (absence : parse_package_presence output1 nonce1 ≡ absent) (output2 : Text)
      (looked2 : async_bounded_shell device (retained_package_data_command nonce2)
        ≡ built output2) where
    retained-Proves :
        (r : Retained)
        → parse_retained_package_data output2 nonce2 ≡ r
        → Yields Proves (after_retained p device r nonce3)
    unfolding after_retained read_facts probe_of_facts is_candidate
    retained-Proves retained e = Yields-built Proves _ (only-Proves retained_or_ambiguous refl)
    retained-Proves unclear e = Yields-built Proves _ (only-Proves retained_or_ambiguous refl)
    retained-Proves nothing e =
        Yields-bind Proves (async_bounded_shell device (target_facts_command nonce3)) _
          λ output3 looked3.
            Yields-or_refuse Proves (parse_target_facts p output3 nonce3) malformed _
              λ facts identified. Yields-built Proves (probe_of_facts facts) λ h.
                let (sdk, abi) = candidate_facts facts h in
                record {
                  connected = connected;
                  output1 = output1;
                  output2 = output2;
                  output3 = output3;
                  facts = facts;
                  looked1 = looked1;
                  absence = absence;
                  looked2 = looked2;
                  no_data = e;
                  looked3 = looked3;
                  identified = identified;
                  sdk = sdk;
                  abi = abi;
                  outcome = refl;
                }

  presence-Proves :
      (connected : device.connect ≡ built true) (output1 : Text)
      → async_bounded_shell device (package_presence_command nonce1) ≡ built output1
      → (r : Presence) → parse_package_presence output1 nonce1 ≡ r
      → Yields Proves (after_presence p device r nonce2 nonce3)
  unfolding after_presence is_candidate
  presence-Proves connected output1 looked1 present e =
      Yields-built Proves _ (only-Proves installed refl)
  presence-Proves connected output1 looked1 unknown e =
      Yields-built Proves _ (only-Proves retained_or_ambiguous refl)
  presence-Proves connected output1 looked1 absent e =
      Yields-bind Proves (async_bounded_shell device (retained_package_data_command nonce2)) _
        λ output2 looked2. retained-Proves connected output1 looked1 e output2 looked2 _ refl

  connected-Proves :
      (c : Bool)
      → device.connect ≡ built c
      → Yields Proves (when_connected p device c nonce1 nonce2 nonce3)
  unfolding when_connected is_candidate
  connected-Proves false e = Yields-built Proves _ (only-Proves adb_unreachable refl)
  connected-Proves true e =
      Yields-bind Proves (async_bounded_shell device (package_presence_command nonce1)) _
        λ output1 looked1. presence-Proves e output1 looked1 _ refl

  settled-Proves : (m : Probing InstallTargetProbe) → Yields Proves m → Proves (settled m)
  unfolding settled only_state is_candidate
  settled-Proves (built probe) h = h probe refl
  settled-Proves (refused malformed) h = λ e. cc
  settled-Proves (refused unauthorized) h = λ e. cc
  settled-Proves (refused unreachable) h = λ e. cc

  -- Whatever the device answers or fails with, a probe that reports a candidate has read the absence
  -- of the package, the absence of its data and the identity of the device from three outputs under
  -- three nonces, and the device has a supported ABI and SDK.
  pub async_probe_install_target-IsProved :
      is_candidate (async_probe_install_target p device nonce1 nonce2 nonce3).state ≡ true
      → IsProved (async_probe_install_target p device nonce1 nonce2 nonce3)
  unfolding async_probe_install_target
  async_probe_install_target-IsProved =
      settled-Proves (device.connect >>= λ c. when_connected p device c nonce1 nonce2 nonce3)
        (Yields-bind Proves device.connect _ λ c e. connected-Proves c e)
