-- ===== src/InstallJobs/Proofs/RoundTrip.antt =====
-- `_serialize_receipt` and `_parse_receipt`: a receipt that was parsed comes back from its own
-- document.
use ha_paneld_home_assistant.Prelude.{
  ◌≡◌, refl, some, codes, is_hex, ◌&&◌, ◌>>=◌, ◌>>◌, Gives-some, Gives-bind, Gives-check, pos,
}
use ha_paneld_home_assistant.Value.{Value, str, int, item, keys_are}
use ha_paneld_home_assistant.Platform.{Platform}
use ha_paneld_home_assistant.InstallJobs.Phase.{code_value}
use ha_paneld_home_assistant.InstallJobs.Receipt.{InstallJobReceipt}
use ha_paneld_home_assistant.InstallJobs.Scalars.{
  safe_text, integer, timestamp, max_attempts, max_executor_generation, max_revision, max_apk_bytes,
}
use ha_paneld_home_assistant.InstallJobs.Parse.{fields_of, parse_target, parse_artifact}
use ha_paneld_home_assistant.InstallJobs.Invariants.{validate_receipt_invariants}
use ha_paneld_home_assistant.InstallJobs.Document.{
  receipt_keys, optional, or_null, parse_phase, parse_code, parse_bool, parse_root_mode,
  parse_entry_id, parse_receipt_fields, parse_receipt, serialize_receipt,
}
use ha_paneld_home_assistant.InstallJobs.Proofs.Again.{
  TakesAgain, safe_text-again, integer-again, parse_phase-again, parse_code-again,
  parse_root_mode-again, optional-again, timestamp-again, parse_entry_id-again, parse_target-again,
  parse_artifact-again,
}

code_again : TakesAgain (optional parse_code) (or_null (λ c. str (code_value c)))
unfolding optional
code_again = optional-again parse_code _ (λ x. refl) parse_code-again

root_mode_again : TakesAgain (optional parse_root_mode) (or_null str)
unfolding optional
root_mode_again = optional-again parse_root_mode _ (λ x. refl) parse_root_mode-again

actual_again : TakesAgain (optional (integer 1 max_apk_bytes)) (or_null (λ n. int (pos n)))
unfolding optional
actual_again =
    optional-again (integer 1 max_apk_bytes) _ (λ x. refl) (integer-again 1 max_apk_bytes)

health_again : (p : Platform) → TakesAgain (optional (timestamp p)) (or_null str)
unfolding optional
health_again p = optional-again (timestamp p) _ (λ x. refl) (timestamp-again p)

entry_id_again : (p : Platform) → TakesAgain (optional (parse_entry_id p)) (or_null str)
unfolding optional
entry_id_again p = optional-again (parse_entry_id p) _ (λ x. refl) (parse_entry_id-again p)

fields_again : (p : Platform) → TakesAgain (parse_receipt_fields p) serialize_receipt
unfolding parse_receipt_fields serialize_receipt fields_of keys_are item parse_bool
fields_again p v = Gives-bind _ (fields_of v) _ λ fields is_object.
    Gives-check _ (keys_are receipt_keys fields) _ λ keyed.
      Gives-bind _ (item (codes "job_id") fields) _ λ v1 f1.
        Gives-bind _ (safe_text 32 v1) _ λ x1 e1.
          Gives-bind _ (item (codes "plan_sha256") fields) _ λ v2 f2.
            Gives-bind _ (safe_text 64 v2) _ λ x2 e2.
              Gives-bind _ (item (codes "adb_credential_id") fields) _ λ v3 f3.
                Gives-bind _ (safe_text 64 v3) _ λ x3 e3.
                  Gives-check _ (is_hex 32 x1 && (is_hex 64 x2 && is_hex 64 x3)) _ λ hex.
                    Gives-bind _ (item (codes "phase") fields) _ λ v4 f4.
                      Gives-bind _ (parse_phase v4) _ λ x4 e4.
                        Gives-bind _ (item (codes "result_code") fields) _ λ v5 f5.
                          Gives-bind _ (optional parse_code v5) _ λ x5 e5.
                            Gives-bind _ (item (codes "cancel_requested") fields) _ λ v6 f6.
                              Gives-bind _ (parse_bool v6) _ λ x6 e6.
                                Gives-bind _ (item (codes "preflight_root_mode") fields) _ λ v7 f7.
                                  Gives-bind _ (optional parse_root_mode v7) _ λ x7 e7.
                                    Gives-bind _ (item (codes "actual_apk_bytes") fields) _ λ v8 f8.
                                      Gives-bind _ (optional (integer 1 max_apk_bytes) v8) _
                                        λ x8 e8.
                                          Gives-bind _ (item (codes "health_checked_at") fields) _
                                            λ v9 f9.
                                              Gives-bind _ (optional (timestamp p) v9) _ λ x9 e9.
                                                Gives-bind _
                                                  (item (codes "consumed_entry_id") fields) _
                                                  λ v10 f10.
                                                    Gives-bind _ (optional (parse_entry_id p) v10) _
                                                      λ x10 e10.
                                                        Gives-bind _
                                                          (item (codes "revision") fields) _
                                                          λ v11 f11.
                                                            Gives-bind _
                                                            (integer 0 max_revision v11) _
                                                            λ x11 e11.
                                                            Gives-bind _
                                                            (item (codes "executor_generation")
                                                            fields)
                                                            _
                                                            λ v12 f12.
                                                            Gives-bind _
                                                            (integer 0 max_executor_generation v12)
                                                            _
                                                            λ x12 e12.
                                                            Gives-bind _
                                                            (item (codes "created_at") fields) _
                                                            λ v13 f13.
                                                            Gives-bind _ (timestamp p v13) _
                                                            λ x13 e13.
                                                            Gives-bind _
                                                            (item (codes "updated_at") fields) _
                                                            λ v14 f14.
                                                            Gives-bind _ (timestamp p v14) _
                                                            λ x14 e14.
                                                            Gives-bind _
                                                            (item (codes "attempt") fields) _
                                                            λ v15 f15.
                                                            Gives-bind _
                                                            (integer 0 max_attempts v15) _
                                                            λ x15 e15.
                                                            Gives-bind _
                                                            (item (codes "target") fields) _
                                                            λ v16 f16.
                                                            Gives-bind _ (parse_target p v16) _
                                                            λ x16 e16.
                                                            Gives-bind _
                                                            (item (codes "artifact") fields) _
                                                            λ v17 f17.
                                                            Gives-bind _ (parse_artifact v17) _
                                                            λ x17 e17. Gives-some _ _ (
                                                            rw (
                                                            safe_text-again 32 v1 x1 e1,
                                                            safe_text-again 64 v2 x2 e2,
                                                            safe_text-again 64 v3 x3 e3,
                                                            hex,
                                                            parse_phase-again v4 x4 e4,
                                                            code_again v5 x5 e5,
                                                            root_mode_again v7 x7 e7,
                                                            actual_again v8 x8 e8,
                                                            health_again p v9 x9 e9,
                                                            entry_id_again p v10 x10 e10,
                                                            integer-again 0 max_revision v11 x11
                                                            e11,
                                                            integer-again 0 max_executor_generation
                                                            v12 x12 e12,
                                                            timestamp-again p v13 x13 e13,
                                                            timestamp-again p v14 x14 e14,
                                                            integer-again 0 max_attempts v15 x15
                                                            e15,
                                                            parse_target-again p v16 x16 e16,
                                                            parse_artifact-again v17 x17 e17,
                                                            ))

-- A receipt that was parsed from any document is parsed again, unchanged, from the document that it
-- is serialized as.
pub parse_receipt-serialize_receipt :
    (p : Platform) (v : Value) (r : InstallJobReceipt)
    → parse_receipt p v ≡ some r
    → parse_receipt p (serialize_receipt r) ≡ some r
unfolding parse_receipt
parse_receipt-serialize_receipt p v r h =
    Gives-bind
      (λ x.
        (parse_receipt_fields p (serialize_receipt x) >>= λ receipt.
        validate_receipt_invariants p receipt >> some receipt)
        ≡ some x)
      (parse_receipt_fields p v) _
      (λ x e.
        Gives-bind _ (validate_receipt_invariants p x) _
          λ u valid. Gives-some _ x (rw (fields_again p v x e, valid)))
      r h
