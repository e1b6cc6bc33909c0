-- ===== src/InstallJobs/Document.antt =====
-- The stored document: parsing and serializing of receipts, and the checked candidate that may be
-- saved. custom_components/panel_assistant/install_jobs.py; `none` is `InstallJobStoreError`.
mod Dict
mod Fields
mod Loop
mod Serialize
pub use Dict.{Jobs, values}
unfoldable pub use Dict.{job, put, same_job, jobs_within, jobs_eq}
pub use Fields.{receipt_keys}
unfoldable pub use Fields.{
  optional, parse_phase, parse_code, parse_bool, parse_root_mode, parse_entry_id,
  parse_receipt_fields, parse_receipt, or_null, serialize_receipt,
}
pub use Loop.{Seen}
unfoldable pub use Loop.{
  see_active, see_at, see, nothing_seen, items_of, item_count, see_all, document_items, bounded,
  parse_document,
}
unfoldable pub use Serialize.{
  pair_le, insert_by, sort_by, in_order, serialize_all, serialize_document,
}
use ha_paneld_home_assistant.Prelude.{
  ℕ, ◌+◌, Bool, true, false, ◌&&◌, ◌||◌, not, Option, none, some, List, [], ◌∷◌, map, leb, ◌==◌,
  if◌then◌else◌, length, ◌>>=◌, ◌>>◌, check, Text, codes, text_eq, text_ltb, mem_text, is_hex, pos,
}
use ha_paneld_home_assistant.Value.{
  Value, null, bool, int, str, arr, obj, Items, nil, cons, end, field, item, keys_are, is_text,
  no_duplicates, value_eq,
}
use ha_paneld_home_assistant.Platform.{Platform}
use ha_paneld_home_assistant.InstallJobs.Phase.{
  Phase, ResultCode, phase_of, code_of, phase_value, code_value,
}
use ha_paneld_home_assistant.InstallJobs.Receipt.{InstallJobReceipt, is_terminal, receipt_eq}
use ha_paneld_home_assistant.InstallJobs.Scalars.{
  safe_text, integer, timestamp, is_config_entry_id, max_active_jobs, max_terminal_jobs,
  max_attempts, max_executor_generation, max_revision, max_apk_bytes, max_store_bytes,
}
use ha_paneld_home_assistant.InstallJobs.Parse.{
  fields_of, parse_target, parse_artifact, target_dict, artifact_dict,
}
use ha_paneld_home_assistant.InstallJobs.Invariants.{is_root_mode, validate_receipt_invariants}

-- What `Store` wraps round the document.
unfoldable pub wrapped : Value → Value
wrapped document = obj (
    field (codes "version") (int (pos 1)) (
      field (codes "minor_version") (int (pos 1)) (
        field (codes "key") (str (codes "panel_assistant.install_jobs"))
          (field (codes "data") document end))))

is_one : Value → Bool
is_one (int (pos n)) = n == 1
is_one _ = false

module _ (p : Platform) where
  -- The document in the wrapping of `Store`.
  unfoldable pub store_data : Text → Option Value
  unfolding no_duplicates fields_of keys_are item is_one is_text
  store_data body = do
    document ← p.loads body
    check (no_duplicates document)
    fields ← fields_of document
    check (
        keys_are (codes "version" ∷ codes "minor_version" ∷ codes "key" ∷ codes "data" ∷ []) fields)
    check (is_one (← item (codes "version") fields))
    check (is_one (← item (codes "minor_version") fields))
    check (is_text (codes "panel_assistant.install_jobs") (← item (codes "key") fields))
    item (codes "data") fields

  unfoldable pub parse_store_document : Text → Option Jobs
  unfolding store_data parse_document
  parse_store_document body = do document ← store_data body; parse_document p document

  unfoldable pub validated_document_for_save : Jobs → Option Value
  unfolding serialize_document wrapped parse_store_document jobs_eq value_eq
  validated_document_for_save jobs = do
    let document = serialize_document jobs
    body ← p.dumps_indented (wrapped document)
    check (leb 1 (length body) && leb (length body) max_store_bytes)
    verified ← parse_store_document body
    check (jobs_eq verified jobs && value_eq (serialize_document verified) document)
    some document
