-- ===== src/Provisioning/Probe.antt =====
-- The commands of the preflight, `_async_bounded_shell` and `async_probe_install_target` of
-- custom_components/panel_assistant/provisioning.py.
use ha_paneld_home_assistant.Prelude.{
  ℕ, ◌*◌, Bool, true, false, not, Option, none, some, List, [], ◌++◌, ltb, if◌then◌else◌, Text,
  codes, mem_text,
}
use ha_paneld_home_assistant.Prelude.Raising.{Raising, built, refused, ◌>>=◌, or_refuse}
use ha_paneld_home_assistant.Platform.{Platform}
use ha_paneld_home_assistant.Release.Fetch.{read_chunks}
use ha_paneld_home_assistant.InstallJobs.Parse.{supported_abis_list}
use ha_paneld_home_assistant.Provisioning.{
  InstallTargetState, InstallTargetProbe, adb_unreachable, adb_unauthorized, incompatible,
  install_candidate, installed, retained_or_ambiguous,
}
use ha_paneld_home_assistant.Provisioning.Lines.{marker}
use ha_paneld_home_assistant.Provisioning.Packages.{
  Presence, present, absent, unknown, Retained, nothing, parse_package_presence,
  parse_retained_package_data,
}
use ha_paneld_home_assistant.Provisioning.Facts.{TargetFacts, id_marker, parse_target_facts}

-- The three kinds of exceptions that the probe tells apart: an answer that proves nothing, a refused
-- authorization, and a connection that is gone.
pub data ProbeFailure : Type 0 where
  malformed unauthorized unreachable : ProbeFailure

abbrev pub Probing : Type 0 → Type 0
Probing A = Raising ProbeFailure A

-- The ADB device: how connecting ends, the chunks that a shell command brings before it ends or
-- fails, and `decode`, which is UTF-8.
pub record AdbDevice : Type 0 where
  pub connect : Probing Bool
  pub streaming_shell : Text → List Text × Option ProbeFailure
  pub decode : Text → Option Text

abbrev pub max_shell_response_bytes : ℕ
max_shell_response_bytes = 16 * 1024

abbrev pub min_android_sdk : ℕ
min_android_sdk = 26

-- `echo {marker}:$?; `
echo_status : Text → Text → Text
unfolding marker
echo_status prefix nonce = codes "echo " ++ (marker prefix nonce ++ codes ":$?; ")

-- One observation: the begin, a command on the package, the liveness, and the end.
observation : Text → Text → Text → Text
unfolding marker echo_status
observation stem command nonce =
    codes "echo "
    ++ (marker (stem ++ codes "BEGIN") nonce
        ++ (codes "; "
            ++ (command
                ++ (codes " io.github.maxlyth.hapaneld; "
                    ++ (echo_status (stem ++ codes "TARGET") nonce
                        ++ (codes "pm path android; "
                            ++ (echo_status (stem ++ codes "LIVE") nonce
                                ++ (codes "echo " ++ marker (stem ++ codes "END") nonce))))))))

unfoldable pub package_presence_command : Text → Text
unfolding observation
package_presence_command = observation (codes "HAPANELD_PKG_") (codes "pm path")

unfoldable pub retained_package_data_command : Text → Text
unfolding observation
retained_package_data_command = observation (codes "HAPANELD_DATA_") (codes "pm list packages -u")

getprop : Text → Text → Text → Text
unfolding id_marker
getprop name android_property nonce =
    codes "echo "
    ++ (id_marker (name ++ codes "_BEGIN") nonce
        ++ (codes "; getprop "
            ++ (android_property
                ++ (codes "; echo " ++ (id_marker (name ++ codes "_END") nonce ++ codes ":$?; ")))))

unfoldable pub target_facts_command : Text → Text
unfolding id_marker getprop
target_facts_command nonce =
    codes "echo "
    ++ (id_marker (codes "BEGIN") nonce
        ++ (codes "; "
            ++ (getprop (codes "MODEL") (codes "ro.product.model") nonce
                ++ (getprop (codes "SERIAL") (codes "ro.serialno") nonce
                    ++ (getprop (codes "ABI") (codes "ro.product.cpu.abi") nonce
                        ++ (getprop (codes "SDK") (codes "ro.build.version.sdk") nonce
                            ++ (codes "echo " ++ id_marker (codes "END") nonce)))))))

stream_ended : Option ProbeFailure → Text → Probing Text
stream_ended none body = built body
stream_ended (some failure) body = refused failure

unfoldable pub async_bounded_shell : AdbDevice → Text → Probing Text
unfolding read_chunks stream_ended
async_bounded_shell device command = do
  let (chunks, ending) = device.streaming_shell command
  received ← or_refuse (read_chunks max_shell_response_bytes [] chunks) malformed
  body ← stream_ended ending received
  or_refuse (device.decode body) malformed

-- A probe that has only found a state.
unfoldable pub only_state : InstallTargetState → InstallTargetProbe
only_state state = record {
  state = state;
  model = none;
  serial = none;
  primary_abi = none;
  android_sdk = none;
}

unfoldable pub facts_state : TargetFacts → InstallTargetState
unfolding mem_text
facts_state facts =
    if ltb facts.android_sdk min_android_sdk
    then incompatible
    else if not (mem_text facts.primary_abi supported_abis_list)
    then incompatible
    else install_candidate

unfoldable pub probe_of_facts : TargetFacts → InstallTargetProbe
unfolding facts_state
probe_of_facts facts = record {
  state = facts_state facts;
  model = some facts.model;
  serial = some facts.serial;
  primary_abi = some facts.primary_abi;
  android_sdk = some facts.android_sdk;
}

-- The `except` clauses.
unfoldable pub settled : Probing InstallTargetProbe → InstallTargetProbe
unfolding only_state
settled (built probe) = probe
settled (refused malformed) = only_state retained_or_ambiguous
settled (refused unauthorized) = only_state adb_unauthorized
settled (refused unreachable) = only_state adb_unreachable

module _ (p : Platform) (device : AdbDevice) where
  -- Once the package is absent and has left no data.
  unfoldable pub read_facts : Text → Probing InstallTargetProbe
  unfolding async_bounded_shell target_facts_command parse_target_facts probe_of_facts
  read_facts nonce = do
    output ← async_bounded_shell device (target_facts_command nonce)
    facts ← or_refuse (parse_target_facts p output nonce) malformed
    built (probe_of_facts facts)

  unfoldable pub after_retained : Retained → Text → Probing InstallTargetProbe
  unfolding read_facts only_state
  after_retained nothing nonce = read_facts nonce
  after_retained _ nonce = built (only_state retained_or_ambiguous)

  unfoldable pub after_presence : Presence → Text → Text → Probing InstallTargetProbe
  unfolding async_bounded_shell retained_package_data_command parse_retained_package_data
      after_retained only_state
  after_presence present nonce2 nonce3 = built (only_state installed)
  after_presence absent nonce2 nonce3 = do
    output ← async_bounded_shell device (retained_package_data_command nonce2)
    after_retained (parse_retained_package_data output nonce2) nonce3
  after_presence unknown nonce2 nonce3 = built (only_state retained_or_ambiguous)

  unfoldable pub when_connected : Bool → Text → Text → Text → Probing InstallTargetProbe
  unfolding async_bounded_shell package_presence_command parse_package_presence after_presence
      only_state
  when_connected false nonce1 nonce2 nonce3 = built (only_state adb_unreachable)
  when_connected true nonce1 nonce2 nonce3 = do
    output ← async_bounded_shell device (package_presence_command nonce1)
    after_presence (parse_package_presence output nonce1) nonce2 nonce3

  -- The nonces are the draws of `token_hex(16)`; closing the device changes no result.
  unfoldable pub async_probe_install_target : Text → Text → Text → InstallTargetProbe
  unfolding when_connected settled
  async_probe_install_target nonce1 nonce2 nonce3 =
      settled (device.connect >>= λ connected. when_connected connected nonce1 nonce2 nonce3)
