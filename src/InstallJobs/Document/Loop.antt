-- ===== src/InstallJobs/Document/Loop.antt =====
-- `_parse_document` of custom_components/panel_assistant/install_jobs.py;
-- `none` is `InstallJobStoreError`.
use ha_paneld_home_assistant.Prelude.{
  ℕ, ◌+◌, ◌&&◌, not, Option, none, some, List, [], ◌∷◌, leb, if◌then◌else◌, ◌>>=◌, ◌>>◌, check,
  Text, codes, mem_text,
}
use ha_paneld_home_assistant.Value.{Value, arr, Items, nil, cons, item, keys_are, is_text}
use ha_paneld_home_assistant.Platform.{Platform}
use ha_paneld_home_assistant.InstallJobs.Receipt.{InstallJobReceipt, is_terminal}
use ha_paneld_home_assistant.InstallJobs.Scalars.{max_active_jobs, max_terminal_jobs}
use ha_paneld_home_assistant.InstallJobs.Parse.{fields_of}
use ha_paneld_home_assistant.InstallJobs.Document.Dict.{Jobs, job, put}
use ha_paneld_home_assistant.InstallJobs.Document.Fields.{parse_receipt}

-- What the loop of `_parse_document` has seen: the jobs, the counts, and the active targets.
pub record Seen : Type 0 where
  pub parsed : Jobs
  pub active_count : ℕ
  pub terminal_count : ℕ
  pub active_addresses : List Text
  pub active_pins : List Text
  pub active_serials : List Text

unfoldable pub see_active : InstallJobReceipt → Seen → Option Seen
unfolding mem_text
see_active r s = do
  check (not (mem_text r.target.address s.active_addresses))
  check (not (mem_text r.target.pinned_address s.active_pins))
  check (not (mem_text r.target.adb_serial s.active_serials))
  some (record s {
    active_count = s.active_count + 1;
    active_addresses = r.target.address ∷ s.active_addresses;
    active_pins = r.target.pinned_address ∷ s.active_pins;
    active_serials = r.target.adb_serial ∷ s.active_serials;
  })

-- One round of the loop, on a parsed receipt and the job that is known under its identifier.
unfoldable pub see_at : Option InstallJobReceipt → InstallJobReceipt → Seen → Option Seen
unfolding put is_terminal see_active
see_at (some old) r s = none
see_at none r s =
    let t = record s { parsed = put r.job_id r s.parsed } in
    if is_terminal r
    then some (record t { terminal_count = t.terminal_count + 1 })
    else see_active r t

unfoldable pub see : InstallJobReceipt → Seen → Option Seen
unfolding job see_at
see r s = see_at (job r.job_id s.parsed) r s

unfoldable pub nothing_seen : Seen
nothing_seen = record {
  parsed = [];
  active_count = 0;
  terminal_count = 0;
  active_addresses = [];
  active_pins = [];
  active_serials = [];
}

unfoldable pub item_count : Items → ℕ
item_count nil = 0
item_count (cons v xs) = item_count xs + 1

unfoldable pub items_of : Value → Option Items
items_of (arr xs) = some xs
items_of _ = none

-- The list of receipts, in the right wrapping.
unfoldable pub document_items : Value → Option Items
unfolding fields_of keys_are item items_of is_text item_count
document_items value = do
  fields ← fields_of value
  check (keys_are (codes "format" ∷ codes "jobs" ∷ []) fields)
  jobs ← items_of (← item (codes "jobs") fields)
  check (is_text (codes "ha-paneld-install-jobs-v1") (← item (codes "format") fields))
  check (leb (item_count jobs) (max_active_jobs + max_terminal_jobs))
  some jobs

-- The counts after the loop.
unfoldable pub bounded : Seen → Option Jobs
bounded s = do
  check (leb s.active_count max_active_jobs && leb s.terminal_count max_terminal_jobs)
  some s.parsed

module _ (p : Platform) where
  unfoldable pub see_all : Items → Seen → Option Seen
  unfolding parse_receipt see
  see_all nil s = some s
  see_all (cons v xs) s = do r ← parse_receipt p v; t ← see r s; see_all xs t

  unfoldable pub parse_document : Value → Option Jobs
  unfolding document_items see_all nothing_seen bounded
  parse_document value = do jobs ← document_items value; s ← see_all jobs nothing_seen; bounded s
