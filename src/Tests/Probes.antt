-- ===== src/Tests/Probes.antt =====
-- A probe of a device that answers every command.
use ha_paneld_home_assistant.Prelude.{
  ℕ, ◌≡◌, refl, true, Option, none, some, [], ◌∷◌, ◌++◌, ◌==◌, if◌then◌else◌, get_or, Text, codes,
  arith,
}
use ha_paneld_home_assistant.Prelude.Raising.{built}
use ha_paneld_home_assistant.Platform.{Platform}
use ha_paneld_home_assistant.Provisioning.{is_candidate}
use ha_paneld_home_assistant.Provisioning.Lines.{is_package_path}
use ha_paneld_home_assistant.Provisioning.Packages.{
  scan_start, scan_lines, presence_of, presence_markers,
}
use ha_paneld_home_assistant.Provisioning.Probe.{
  AdbDevice, ProbeFailure, async_probe_install_target,
}
use ha_paneld_home_assistant.Provisioning.Candidates.{IsProved, async_probe_install_target-IsProved}
use ha_paneld_home_assistant.Provisioning.Scanned.{has_some}
use ha_paneld_home_assistant.Provisioning.Transcripts.{transcript, verdict, scan_lines-transcript}
use ha_paneld_home_assistant.Tests.Setting.{platform}

abbrev presence_output : Text
presence_output =
    codes
      "HAPANELD_PKG_BEGIN:a\nHAPANELD_PKG_TARGET:a:1\npackage:/x\nHAPANELD_PKG_LIVE:a:0\nHAPANELD_PKG_END:a\n"

abbrev data_output : Text
data_output =
    codes
      "HAPANELD_DATA_BEGIN:b\nHAPANELD_DATA_TARGET:b:0\npackage:/x\nHAPANELD_DATA_LIVE:b:0\nHAPANELD_DATA_END:b\n"

abbrev facts_output : Text
facts_output =
    codes "HAPANELD_ID_BEGIN:c\nHAPANELD_ID_MODEL_BEGIN:c\nPanel\nHAPANELD_ID_MODEL_END:c:0\n"
    ++ (codes "HAPANELD_ID_SERIAL_BEGIN:c\npanel-1\nHAPANELD_ID_SERIAL_END:c:0\n"
        ++ (codes "HAPANELD_ID_ABI_BEGIN:c\narm64-v8a\nHAPANELD_ID_ABI_END:c:0\n"
            ++ codes "HAPANELD_ID_SDK_BEGIN:c\n30\nHAPANELD_ID_SDK_END:c:0\nHAPANELD_ID_END:c\n"))

-- The letter after `echo HAPANELD_` tells the commands apart.
abbrev answer : ℕ → Text
answer letter =
    if letter == b'P' then presence_output else if letter == b'D' then data_output else facts_output

abbrev ready : Option ProbeFailure
ready = none

abbrev device : AdbDevice
device = record {
  connect = built true;
  streaming_shell = λ command. (answer (get_or command 14 0) ∷ [], ready);
  decode = λ s. some s;
}

abbrev here : Platform
here = platform []

probe_run :
    is_candidate (async_probe_install_target here device (codes "a") (codes "b") (codes "c")).state
    ≡ true
unfolding async_probe_install_target is_candidate
probe_run = refl

async_probe_install_target-IsProved_example :
    IsProved here device
      (codes "a")
      (codes "b")
      (codes "c")
      (async_probe_install_target here device (codes "a") (codes "b") (codes "c"))
async_probe_install_target-IsProved_example =
    async_probe_install_target-IsProved here device (codes "a") (codes "b") (codes "c") probe_run

abbrev path : Text
path = codes "package:/x"

path_valid : is_package_path path ≡ true
unfolding is_package_path
path_valid = refl

scan_lines-transcript_example :
    presence_of (
      scan_lines presence_markers
        (codes "a")
        (transcript (codes "a") [] 1 (path ∷ []) 0)
        scan_start)
    ≡ verdict (has_some []) 1 (has_some (path ∷ [])) 0
scan_lines-transcript_example =
    scan_lines-transcript (codes "a") [] (path ∷ []) 1 0 tt (path_valid, tt) (omega arith)
      (omega arith)
